-- ===== src/Fetch/Headers.antt =====
-- How the steps of `customFetch` keep the headers that are there.
use mcp_project_server.Prelude.{
  ◌≡◌, ◌≢◌, refl, sym, ◌∙◌, ap, subst, inl, inr, Bool, true, false, not, ◌&&◌, Option, none, some,
  Bool-cases, if-cases, if-both, [], ◌∷◌, ◌++◌, foldl, arith,
}
use mcp_project_server.Js.Str.{Str, codes, str_eq, str_eq_iff, str_eq_refl}
use mcp_project_server.Js.Map.{Map, get, put, get-put, HasDistinctKeys}
use mcp_project_server.Fetch.Bodies.{
  Outcome, value, api_error, parse_error, type_error, runtime_error, ◌>>=◌,
}
use mcp_project_server.Fetch.Requests.{
  Input, path, url, request, Token, unavailable, given, set_default, merge_headers, attach_token,
  call_getter, input_headers, has_header,
}

-- A predicate on the value, if the call gives one.
unfoldable pub OnValue : {N B A : Type 0} → (A → Type 0) → Outcome N B A → Type 0
OnValue P (value a) = P a
OnValue P _ = Unit

pub OnValue-bind :
    {N B A C : Type 0} (P : A → Type 0) (Q : C → Type 0) (o : Outcome N B A) (f : A → Outcome N B C)
    → OnValue P o
    → ((a : A) → P a → OnValue Q (f a))
    → OnValue Q (o >>= f)
unfolding OnValue ◌>>=◌
OnValue-bind P Q (value a) f h k = k a h
OnValue-bind P Q (api_error e) f h k = tt
OnValue-bind P Q (parse_error e) f h k = tt
OnValue-bind P Q (type_error m) f h k = tt
OnValue-bind P Q runtime_error f h k = tt

pub OnValue-Unit : {N B A : Type 0} (o : Outcome N B A) → OnValue (λ a. Unit {0}) o
unfolding OnValue
OnValue-Unit (value a) = tt
OnValue-Unit (api_error e) = tt
OnValue-Unit (parse_error e) = tt
OnValue-Unit (type_error m) = tt
OnValue-Unit runtime_error = tt

pub OnValue-both :
    {N B A : Type 0} (P Q : A → Type 0) (o : Outcome N B A)
    → OnValue P o
    → OnValue Q o
    → OnValue (λ a. P a × Q a) o
unfolding OnValue
OnValue-both P Q (value a) p q = (p, q)
OnValue-both P Q (api_error e) p q = tt
OnValue-both P Q (parse_error e) p q = tt
OnValue-both P Q (type_error m) p q = tt
OnValue-both P Q runtime_error p q = tt

pub OnValue-made :
    (N B : Type 0) {A : Type 0} (P : A → Type 0) (a : A) → P a → OnValue {N = N} {B = B} P (value a)
unfolding OnValue
OnValue-made N B P a p = p

pub OnValue-type_error :
    (N B : Type 0) {A : Type 0} (P : A → Type 0) (m : Str)
    → OnValue {N = N} {B = B} P (type_error m)
unfolding OnValue
OnValue-type_error N B P m = tt

pub OnValue-value :
    {N B A : Type 0} (P : A → Type 0) (o : Outcome N B A) (a : A) → o ≡ value a → OnValue P o → P a
unfolding OnValue
OnValue-value P o a e h = subst (OnValue P) e h

get-put_same : (headers : Map Str) (k v : Str) → get (put headers k v) k ≡ some v
get-put_same headers k v = ground (arith, get-put headers k k v, str_eq_refl k)

-- `for (const [name, value] of source) headers.set(name, value)`
abbrev put_all : Map Str → Map Str → Map Str
put_all headers source = foldl (λ h e. put h e.0 e.1) headers source

get-put_all_other :
    (source headers : Map Str) (k : Str)
    → get source k ≡ none
    → get (put_all headers source) k ≡ get headers k
unfolding get
get-put_all_other [] headers k h = refl
get-put_all_other ((j, v) ∷ source) headers k h =
    ground (arith, get-put_all_other source (put headers j v) k, get-put headers j k v)

get-put_all :
    (source headers : Map Str) (k v : Str)
    → HasDistinctKeys source
    → get source k ≡ some v
    → get (put_all headers source) k ≡ some v
unfolding get
get-put_all [] headers k v distinct h = absurd (cc)
get-put_all ((j, w) ∷ source) headers k v (fresh, distinct) h = elim (Bool-cases (str_eq j k)) [
  | inl same ↦
      let key : j ≡ k = (str_eq_iff j k).0 same in
      let free : get source k ≡ none = subst (λ (n : Str). get source n ≡ none) key fresh in
      ground (arith, get-put_all_other source (put headers j w) k free, get-put headers j k w)
  | inr other ↦ get-put_all source (put headers j w) k v distinct (ground arith)
]

-- The last source's value stands.
pub get-merge_headers :
    (input : Input) (source : Map Str) (k v : Str)
    → HasDistinctKeys source
    → get source k ≡ some v
    → get (merge_headers (input_headers input ++ (source ∷ []))) k ≡ some v
unfolding merge_headers
get-merge_headers (path u) source k v distinct h = get-put_all source [] k v distinct h
get-merge_headers (url u) source k v distinct h = get-put_all source [] k v distinct h
get-merge_headers (request u m own) source k v distinct h =
    get-put_all source (put_all [] own) k v distinct h

no_header :
    (headers : Map Str) (name : Str) → get headers name ≡ none → has_header headers name ≡ false
no_header headers name e = ap (λ (o : Option Str). elim o [ none ↦ false | some _ ↦ true ]) e

-- A header that is there is not the one that is set where it is not there.
put_other :
    (name x : Str) (headers : Map Str) (k v : Str)
    → get headers k ≡ some v
    → has_header headers name ≡ false
    → get (put headers name x) k ≡ some v
put_other name x headers k v h missing = elim (Bool-cases (str_eq name k)) [
  | inl same ↦
      let key : name ≡ k = (str_eq_iff name k).0 same in
      let free : has_header headers k ≡ false =
        subst (λ n. has_header headers n ≡ false) key missing in
      absurd (ground arith)
  | inr other ↦ ground (arith, get-put headers name k x)
]

-- A header that is in none of the sources is not there.
pub get-merge_headers_missing :
    (source : Map Str) (k : Str) → get source k ≡ none → get (merge_headers (source ∷ [])) k ≡ none
unfolding merge_headers get
get-merge_headers_missing source k h = get-put_all_other source [] k h ∙ refl

pub get-set_default_missing :
    (wanted : Bool) (name x : Str) (headers : Map Str) (k : Str)
    → str_eq name k ≡ false
    → get headers k ≡ none
    → get (set_default wanted name x headers) k ≡ none
unfolding set_default
get-set_default_missing wanted name x headers k other h =
    if-both (λ (m : Map Str). get m k ≡ none) (wanted && not (has_header headers name))
      (ground (arith, get-put headers name k x)) h

pub get-set_default :
    (wanted : Bool) (name x : Str) (headers : Map Str) (k v : Str)
    → get headers k ≡ some v
    → get (set_default wanted name x headers) k ≡ some v
unfolding set_default
get-set_default wanted name x headers k v h =
    if-cases (λ (m : Map Str). get m k ≡ some v) (wanted && not (has_header headers name))
      (λ missing. put_other name x headers k v h (ground arith)) (λ there. h)

abbrev pub auth : Str
auth = codes "authorization"

abbrev pub admin : Str
admin = codes "x-pcs-admin-token"

abbrev pub bearer : Str
bearer = codes "Bearer "

module _ (N B : Type 0) where
  get-call_getter :
      (name scheme : Str) (getter : Option Token) (headers : Map Str) (k v : Str) (there : Bool)
      → has_header headers name ≡ there
      → get headers k ≡ some v
      → OnValue {N = N} {B = B}
          (λ m. get m k ≡ some v)
          (call_getter name scheme getter headers there)
  unfolding OnValue
  get-call_getter name scheme none headers k v there e h = h
  get-call_getter name scheme (some _) headers k v true e h = h
  get-call_getter name scheme (some unavailable) headers k v false e h = tt
  get-call_getter name scheme (some (given none)) headers k v false e h = h
  get-call_getter name scheme (some (given (some token))) headers k v false e h =
      if-both (λ (m : Map Str). get m k ≡ some v) (str_eq token []) h
        (put_other name (scheme ++ token) headers k v h e)

  pub get-attach_token :
      (name scheme : Str) (getter : Option Token) (headers : Map Str) (k v : Str)
      → get headers k ≡ some v
      → OnValue {N = N} {B = B} (λ m. get m k ≡ some v) (attach_token name scheme getter headers)
  unfolding attach_token
  get-attach_token name scheme getter headers k v h =
      get-call_getter name scheme getter headers k v (has_header headers name) refl h

  -- A token that is given for a header that is not there is attached.
  pub attached :
      (name scheme token : Str) (headers : Map Str)
      → token ≢ []
      → get headers name ≡ none
      → OnValue {N = N} {B = B}
          (λ m. get m name ≡ some (scheme ++ token))
          (attach_token name scheme (some (given (some token))) headers)
  unfolding attach_token OnValue str_eq
  attached name scheme [] headers some_token missing = absurd (some_token refl)
  attached name scheme (c ∷ token) headers some_token missing =
      let free : has_header headers name ≡ false = no_header headers name missing in
      subst
        (λ there.
          OnValue {N = N} {B = B} (λ m. get m name ≡ some (scheme ++ c ∷ token))
            (call_getter name scheme (some (given (some (c ∷ token)))) headers there))
        (sym free) (get-put_same headers name (scheme ++ c ∷ token))

  -- A header of another name stays away.
  pub attached_other :
      (name scheme token : Str) (headers : Map Str) (k : Str)
      → str_eq name k ≡ false
      → get headers k ≡ none
      → OnValue {N = N} {B = B}
          (λ m. get m k ≡ none)
          (attach_token name scheme (some (given (some token))) headers)
  unfolding attach_token OnValue
  attached_other name scheme token headers k other h =
      elim (has_header headers name)
        as (λ there.
          OnValue {N = N} {B = B} (λ m. get m k ≡ none)
            (call_getter name scheme (some (given (some token))) headers there)) [
              | true ↦ h
              | false ↦
                  if-both (λ (m : Map Str). get m k ≡ none) (str_eq token []) h
                    (ground (arith, get-put headers name k (scheme ++ token)))
            ]
