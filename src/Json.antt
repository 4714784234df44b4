-- ===== src/Json.antt =====
-- JSON as encoding/json decodes it: values, and objects as Go maps, which hold each name once. A number
-- is kept as it is written.
use cmgr.Common.{
  ℕ, ◌≡◌, refl, Bool, true, false, not, ◌&&◌, suc, ◌==◌, Option, none, some, List, [], ◌∷◌, arith,
  if◌then◌else◌, Text, text_eq, text_eq_iff, text_eq_refl,
}

mutual
  pub data Json : Type 0 where
    null : Json
    bool : Bool → Json
    num : Text → Json
    text : Text → Json
    arr : Items → Json
    obj : Fields → Json

  pub data Items : Type 0 where
    nil : Items
    cons : Json → Items → Items

  pub data Fields : Type 0 where
    end : Fields
    field : Text → Json → Fields → Fields

abbrev pub is_null : Json → Bool
is_null null = true
is_null (bool b) = false
is_null (num n) = false
is_null (text t) = false
is_null (arr xs) = false
is_null (obj fs) = false

-- `value, ok := object[name]`.
abbrev pub get : Text → Fields → Option Json
get k end = none
get k (field j v fs) = let rest = get k fs in if text_eq j k then some v else rest

-- `object[name] = value`.
abbrev pub put : Text → Json → Fields → Fields
put k v end = field k v end
put k v (field j w fs) =
    let rest = put k v fs in if text_eq j k then field k v fs else field j w rest

-- json.Unmarshal into a map: null is accepted and gives a map without members.
abbrev pub as_object : Json → Option Fields
as_object null = some end
as_object (obj fs) = some fs
as_object (bool b) = none
as_object (num n) = none
as_object (text t) = none
as_object (arr xs) = none

-- json.Unmarshal into a slice of raw values.
abbrev pub as_items : Json → Option Items
as_items null = some nil
as_items (arr xs) = some xs
as_items (obj fs) = none
as_items (bool b) = none
as_items (num n) = none
as_items (text t) = none

-- An element of []string; null leaves the empty string that stands there.
abbrev pub as_text : Json → Option Text
as_text null = some []
as_text (text t) = some t
as_text (bool b) = none
as_text (num n) = none
as_text (arr xs) = none
as_text (obj fs) = none

abbrev pub cons_text : Option Text → Option (List Text) → Option (List Text)
cons_text none ts = none
cons_text (some t) none = none
cons_text (some t) (some ts) = some (t ∷ ts)

unfoldable pub texts_of : Items → Option (List Text)
texts_of nil = some []
texts_of (cons v vs) = cons_text (as_text v) (texts_of vs)

-- json.Unmarshal into []string, and json.Marshal of one.
abbrev pub as_texts : Json → Option (List Text)
as_texts null = some []
as_texts (arr xs) = texts_of xs
as_texts (obj fs) = none
as_texts (bool b) = none
as_texts (num n) = none
as_texts (text t) = none

unfoldable pub items_of : List Text → Items
items_of [] = nil
items_of (t ∷ ts) = cons (text t) (items_of ts)

abbrev pub snoc : Items → Json → Items
snoc nil v = cons v nil
snoc (cons w ws) v = cons w (snoc ws v)

abbrev bool_eq : Bool → Bool → Bool
bool_eq true b = b
bool_eq false b = not b

abbrev members : Fields → ℕ
members end = 0
members (field k v fs) = suc (members fs)

-- reflect.DeepEqual of two decoded values; members of objects may stand in any order.
unfoldable mutual
  pub json_eq : Json → Json → Bool
  json_eq null w = is_null w
  json_eq (bool b) w = elim w [ bool c ↦ bool_eq b c | _ ↦ false ]
  json_eq (num n) w = elim w [ num m ↦ text_eq n m | _ ↦ false ]
  json_eq (text s) w = elim w [ text t ↦ text_eq s t | _ ↦ false ]
  json_eq (arr xs) w = elim w [ arr ys ↦ items_eq xs ys | _ ↦ false ]
  json_eq (obj fs) w = elim w [ obj gs ↦ (members fs == members gs) && within fs gs | _ ↦ false ]

  pub items_eq : Items → Items → Bool
  items_eq nil ys = elim ys [ nil ↦ true | cons y r ↦ false ]
  items_eq (cons x xs) ys = elim ys [ nil ↦ false | cons y r ↦ json_eq x y && items_eq xs r ]

  pub within : Fields → Fields → Bool
  within end gs = true
  within (field k v fs) gs = elim (get k gs) [ none ↦ false | some w ↦ json_eq v w && within fs gs ]

pub get-put :
    (k j : Text) (v : Json) (fs : Fields)
    → get j (put k v fs) ≡ (if text_eq k j then some v else get j fs)
get-put k j v end = refl
get-put k j v (field i w fs) =
    ground (arith, text_eq_iff k j, text_eq_iff i k, text_eq_iff i j, get-put k j v fs)

pub get-put_same : (k : Text) (v : Json) (fs : Fields) → get k (put k v fs) ≡ some v
get-put_same k v fs = ground (arith, get-put k k v fs, text_eq_refl k)

pub get-put_other :
    (k j : Text) (v : Json) (fs : Fields) → text_eq k j ≡ false → get j (put k v fs) ≡ get j fs
get-put_other k j v fs h = ground (arith, get-put k j v fs)

-- Texts that were encoded are read back.
pub texts_of-items_of : (ts : List Text) → texts_of (items_of ts) ≡ some ts
unfolding texts_of items_of
texts_of-items_of [] = refl
texts_of-items_of (t ∷ ts) = rw (texts_of-items_of ts)

-- Two objects agree on every name but one.
abbrev pub KeepsBut : Text → Fields → Fields → Type 0
KeepsBut k old new = (j : Text) → text_eq k j ≡ false → get j new ≡ get j old

pub items_eq_refl : (ts : List Text) → items_eq (items_of ts) (items_of ts) ≡ true
unfolding json_eq items_of
items_eq_refl [] = refl
items_eq_refl (t ∷ ts) = ground (arith, text_eq_refl t, items_eq_refl ts)
