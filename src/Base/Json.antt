-- ===== src/Base/Json.antt =====
-- JSON values as the engine reads them, and objects as dictionaries. A key stands once in an
-- object that `put` built; `get` finds the first. An int is exact; a float is kept by its text.
use Prim.Native.Nat.{ℕ}
use Prim.Native.String.{String}
use mathlib.Core.Path.{◌≡◌, refl}
use mathlib.Core.Bool.{Bool, false}
use mathlib.Core.Option.{Option, none, some}
use mathlib.Core.List.{List, [], ◌∷◌}
use native.Mathlib.Omega.{arith}
use text.Mathlib.Text.{◌==◌}
use text.Mathlib.TextEquality.{eq_iff}
use agentic_dev_kit.Base.Tests.{if◌then◌else◌}

-- `negsuc n` is -(n + 1)
pub data ℤ : Type 0 where
  pos : ℕ → ℤ
  negsuc : ℕ → ℤ

mutual
  pub data Json : Type 0 where
    null : Json
    bool : Bool → Json
    int : ℤ → Json
    float : String → Json
    str : String → Json
    arr : Items → Json
    obj : Fields → Json

  pub data Items : Type 0 where
    nil : Items
    cons : Json → Items → Items

  pub data Fields : Type 0 where
    end : Fields
    field : String → Json → Fields → Fields

-- `d.get(k)`, with `none` where the key is not in the object
unfoldable pub get : Fields → String → Option Json
get end k = none
get (field j v fs) k = if j == k then some v else get fs k

-- `d[k] = v`
unfoldable pub put : Fields → String → Json → Fields
put end k v = field k v end
put (field j w fs) k v = if j == k then field k v fs else field j w (put fs k v)

-- `d.pop(k, None)`
unfoldable pub del : Fields → String → Fields
del end k = end
del (field j v fs) k = let rest = del fs k in if j == k then rest else field j v rest

pub get-put :
    (fs : Fields) (k j : String) (v : Json)
    → get (put fs k v) j ≡ (if k == j then some v else get fs j)
unfolding get put
get-put end k j v = refl
get-put (field i w fs) k j v = ground (arith, eq_iff k j, eq_iff i k, eq_iff i j, get-put fs k j v)

pub get-del : (fs : Fields) (k j : String) → get (del fs k) j ≡ (if k == j then none else get fs j)
unfolding get del
get-del end k j = ground arith
get-del (field i w fs) k j = ground (arith, eq_iff k j, eq_iff i k, eq_iff i j, get-del fs k j)

pub ruleset dict_laws = (get-put, get-del)

-- the `isinstance` reads
abbrev pub as_text : Option Json → Option String
as_text (some (str s)) = some s
as_text _ = none

abbrev pub as_obj : Option Json → Option Fields
as_obj (some (obj fs)) = some fs
as_obj _ = none

abbrev pub as_arr : Option Json → Option Items
as_arr (some (arr xs)) = some xs
as_arr _ = none

-- `v == text`
abbrev pub is_str : Option Json → String → Bool
is_str (some (str s)) t = s == t
is_str _ t = false

-- `isinstance(v, int)` without `bool`
abbrev pub as_int : Option Json → Option ℤ
as_int (some (int n)) = some n
as_int _ = none

-- the texts of a list, other members dropped
unfoldable pub texts : Items → List String
texts nil = []
texts (cons (str s) xs) = s ∷ texts xs
texts (cons _ xs) = texts xs

unfoldable pub text_items : List String → Items
text_items [] = nil
text_items (s ∷ ss) = cons (str s) (text_items ss)

pub texts-text_items : (ss : List String) → texts (text_items ss) ≡ ss
unfolding texts text_items
texts-text_items [] = refl
texts-text_items (s ∷ ss) = cc (texts-text_items ss)
