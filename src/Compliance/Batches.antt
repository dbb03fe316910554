-- ===== src/Compliance/Batches.antt =====
-- The batches of a compliance review.
use mcp_project_server.Prelude.{
  ℕ, zero, suc, ◌+◌, ◌≤◌, ◌<◌, ◌≡◌, refl, ap, sym, ◌∙◌, List, [], ◌∷◌, ◌++◌, length, take, drop,
  concat, All, ltb, length-drop, length-take, drop-drop, take-append-drop, if-cases, arith,
}
use mcp_project_server.Js.Str.{Str}
use mcp_project_server.Compliance.{batch_size, chunks_from, chunks_of}

-- A cut of a list into batches.
pub record IsBatched (ids : List Str) (chunks : List (List Str)) : Type 0 where
  pub whole : concat chunks ≡ ids
  pub sizes : All (λ c. (0 < length c) × (length c ≤ batch_size)) chunks

length-take_full :
    {A : Type 0} (n : ℕ) (xs : List A) → 0 < n → 0 < length xs → 0 < length (take n xs)
length-take_full zero xs n h = absurd (omega arith)
length-take_full (suc n) [] p h = absurd (omega arith)
length-take_full (suc n) (x ∷ xs) p h = omega arith

drop_all : {A : Type 0} (n : ℕ) (xs : List A) → length xs ≤ n → drop n xs ≡ []
drop_all zero [] h = refl
drop_all zero (x ∷ xs) h = absurd (omega arith)
drop_all (suc n) [] h = refl
drop_all (suc n) (x ∷ xs) h = drop_all n xs (omega arith)

chunks_from-IsBatched :
    (fuel index : ℕ) (ids : List Str)
    → length ids ≤ index + fuel
    → IsBatched (drop index ids) (chunks_from fuel index ids)
unfolding chunks_from
chunks_from-IsBatched zero index ids h = record {
  whole = sym (drop_all index ids (omega arith));
  sizes = tt;
}
chunks_from-IsBatched (suc fuel) index ids h =
    let rest = chunks_from-IsBatched fuel (index + batch_size) ids (omega arith) in
    if-cases (IsBatched (drop index ids)) (ltb index (length ids))
      (λ more. record {
        whole =
            ap (λ (r : List Str). take batch_size (drop index ids) ++ r)
              (rest.whole ∙ sym (drop-drop index batch_size ids))
            ∙ take-append-drop batch_size (drop index ids);
        sizes = (
          (
            length-take_full batch_size (drop index ids) (omega arith)
                (ground (arith, length-drop index ids)),
            length-take batch_size (drop index ids),
          ),
          rest.sizes,
        );
      })
      (λ done. record { whole = sym (drop_all index ids (ground arith)); sizes = tt })

-- The batches together are the list, in its order, and none is empty or of more than 25
-- identifiers.
pub chunks_of-IsBatched : (ids : List Str) → IsBatched ids (chunks_of ids)
unfolding chunks_of
chunks_of-IsBatched ids = chunks_from-IsBatched (length ids) 0 ids (omega arith)
