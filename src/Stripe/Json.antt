-- ===== src/Stripe/Json.antt =====
-- The JSON values that a Stripe event, the metadata of a job and a JSONB column are made of, with
-- what backend/services/stripe_webhook_router.py does to them. A dict is the list of its items.
use chart_solar.Prelude.{
  ℕ, String, Bool, true, false, Option, none, some, str_eq, ◌==◌, not, if◌then◌else◌,
}

mutual
  pub data Json : Type 0 where
    null : Json
    bool : Bool → Json
    num : ℕ → Json
    str : String → Json
    arr : Items → Json
    dict : Fields → Json

  pub data Items : Type 0 where
    nil : Items
    cons : Json → Items → Items

  pub data Fields : Type 0 where
    end : Fields
    field : String → Json → Fields → Fields

-- `d.get(key)`, with `None` for a missing key
unfoldable pub get : String → Fields → Json
get key end = null
get key (field k v rest) = if str_eq k key then v else get key rest

-- Python's truth of a value
unfoldable pub truthy : Json → Bool
truthy null = false
truthy (bool b) = b
truthy (num n) = not (n == 0)
truthy (str s) = not (str_eq s "")
truthy (arr nil) = false
truthy (arr (cons x xs)) = true
truthy (dict end) = false
truthy (dict (field k v rest)) = true

-- `isinstance(v, str)`
abbrev pub as_str : Json → Option String
as_str (str s) = some s
as_str _ = none

-- `v or {}`, on which the code then calls `.get`: `none` is the `AttributeError` of a value that
-- is true and no dict
unfoldable pub or_empty : Json → Option Fields
unfolding truthy
or_empty (dict d) = some d
or_empty v = if truthy v then none else some end
