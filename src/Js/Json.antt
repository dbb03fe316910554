-- ===== src/Js/Json.antt =====
-- JSON values as the clients read them: what the runtime parses from a response's body. `N` stands
-- for the numbers.
use mcp_project_server.Prelude.{Bool, Option, none, some, if◌then◌else◌}
use mcp_project_server.Js.Str.{Str, str_eq}

mutual
  pub data Json (N : Type 0) : Type 0 where
    null : Json N
    boolean : Bool → Json N
    number : N → Json N
    string : Str → Json N
    array : Items N → Json N
    object : Fields N → Json N

  pub data Items (N : Type 0) : Type 0 where
    nil : Items N
    cons : Json N → Items N → Items N

  -- The properties of an object, each key once.
  pub data Fields (N : Type 0) : Type 0 where
    empty : Fields N
    field : Str → Json N → Fields N → Fields N

module _ {N : Type 0} where
  unfoldable pub own : Fields N → Str → Option (Json N)
  own empty key = none
  own (field k v fields) key = let rest = own fields key in if str_eq k key then some v else rest

  -- The property of a value: `none` where it is `undefined`.
  unfoldable pub property : Json N → Str → Option (Json N)
  unfolding own
  property (Json.object fields) key = own fields key
  property _ key = none
