-- ===== src/Json.antt =====
-- What encoding/json makes of the structs of the program: objects whose keys are the struct tags, in
-- order, without the empty fields that are marked `omitempty`; and reading them into structs, where a
-- field that is absent or null stays zero. Keys are compared exactly.
use baton_tenable_vm.Prelude.{
  Bool, Bool-cases, List, Option, String, [], ap, beq_refl, beq→eq, false, if◌then◌else◌, inl, inr,
  map, negsuc, none, pos, refl, some, string_eq, suc, sym, true, zero, ℕ_eq, ℤ, ℤ_eq, ◌==◌, ◌∷◌,
  ◌≡◌,
}
use baton_tenable_vm.Client.Action.{ok, failed, Result}

mutual
  pub data Json : Type 0 where
    json_null : Json
    json_bool : Bool → Json
    json_number : ℤ → Json
    json_text : String → Json
    json_array : Items → Json
    json_object : Fields → Json

  pub data Items : Type 0 where
    no_items : Items
    item : Json → Items → Items

  pub data Fields : Type 0 where
    no_fields : Fields
    field : String → Json → Fields → Fields

abbrev pub items_of : {A : Type 0} → (A → Json) → List A → Items
items_of write [] = no_items
items_of write (x ∷ xs) = item (write x) (items_of write xs)

abbrev pub array_of : {A : Type 0} → (A → Json) → List A → Json
array_of write xs = json_array (items_of write xs)

-- Fields marked `omitempty`, in front of the fields behind them
abbrev pub omit_number : String → ℤ → Fields → Fields
omit_number key (pos zero) rest = rest
omit_number key (pos (suc n)) rest = field key (json_number (pos (suc n))) rest
omit_number key (negsuc n) rest = field key (json_number (negsuc n)) rest

abbrev pub omit_bool : String → Bool → Fields → Fields
omit_bool key false rest = rest
omit_bool key true rest = field key (json_bool true) rest

abbrev pub omit_text : String → String → Fields → Fields
omit_text key t rest = if t == "" then rest else field key (json_text t) rest

abbrev pub omit_list : {A : Type 0} → (A → Json) → String → List A → Fields → Fields
omit_list write key [] rest = rest
omit_list write key (x ∷ xs) rest = field key (array_of write (x ∷ xs)) rest

-- The value of a key, of an object that has it once
unfoldable pub find_field : String → Fields → Option Json
find_field key no_fields = none
find_field key (field name value rest) =
    let later = find_field key rest in if name == key then some value else later

abbrev pub read_text : Option Json → Result String
read_text none = ok ""
read_text (some json_null) = ok ""
read_text (some (json_text t)) = ok t
read_text (some (json_bool b)) = failed "cannot unmarshal bool into string"
read_text (some (json_number n)) = failed "cannot unmarshal number into string"
read_text (some (json_array items)) = failed "cannot unmarshal array into string"
read_text (some (json_object members)) = failed "cannot unmarshal object into string"

abbrev pub read_number : Option Json → Result ℤ
read_number none = ok (pos 0)
read_number (some json_null) = ok (pos 0)
read_number (some (json_number n)) = ok n
read_number (some (json_bool b)) = failed "cannot unmarshal bool into int"
read_number (some (json_text t)) = failed "cannot unmarshal string into int"
read_number (some (json_array items)) = failed "cannot unmarshal array into int"
read_number (some (json_object members)) = failed "cannot unmarshal object into int"

abbrev pub read_bool : Option Json → Result Bool
read_bool none = ok false
read_bool (some json_null) = ok false
read_bool (some (json_bool b)) = ok b
read_bool (some (json_number n)) = failed "cannot unmarshal number into bool"
read_bool (some (json_text t)) = failed "cannot unmarshal string into bool"
read_bool (some (json_array items)) = failed "cannot unmarshal array into bool"
read_bool (some (json_object members)) = failed "cannot unmarshal object into bool"

-- `if err != nil { return err }`, and the rest
infixr 20 ◌>>=◌
abbrev pub ◌>>=◌ : {A B : Type 0} → Result A → (A → Result B) → Result B
failed reason >>= k = failed reason
ok a >>= k = k a

abbrev add_item : {A : Type 0} → Result A → Result (List A) → Result (List A)
add_item (failed reason) rest = failed reason
add_item (ok x) (failed reason) = failed reason
add_item (ok x) (ok xs) = ok (x ∷ xs)

unfoldable pub read_items : {A : Type 0} → (Json → Result A) → Items → Result (List A)
read_items read no_items = ok []
read_items read (item j items) = add_item (read j) (read_items read items)

abbrev pub read_list : {A : Type 0} → (Json → Result A) → Option Json → Result (List A)
read_list read none = ok []
read_list read (some json_null) = ok []
read_list read (some (json_array items)) = read_items read items
read_list read (some (json_bool b)) = failed "cannot unmarshal bool into slice"
read_list read (some (json_number n)) = failed "cannot unmarshal number into slice"
read_list read (some (json_text t)) = failed "cannot unmarshal string into slice"
read_list read (some (json_object members)) = failed "cannot unmarshal object into slice"

-- The fields of an object that is read into a struct; null leaves the struct zero.
abbrev pub read_struct : {A : Type 0} → (Fields → Result A) → Json → Result A
read_struct read json_null = read no_fields
read_struct read (json_object members) = read members
read_struct read (json_bool b) = failed "cannot unmarshal bool into struct"
read_struct read (json_number n) = failed "cannot unmarshal number into struct"
read_struct read (json_text t) = failed "cannot unmarshal string into struct"
read_struct read (json_array items) = failed "cannot unmarshal array into struct"

module _ (k : String) (rest : Fields) where
  pub omit_number-other :
      (key : String) (n : ℤ)
      → (k == key) ≡ false
      → find_field key (omit_number k n rest) ≡ find_field key rest
  unfolding find_field
  omit_number-other key (pos zero) h = refl
  omit_number-other key (pos (suc n)) h = rw h refl
  omit_number-other key (negsuc n) h = rw h refl

  pub omit_number-same :
      (n : ℤ) → find_field k rest ≡ none → read_number (find_field k (omit_number k n rest)) ≡ ok n
  unfolding find_field
  omit_number-same (pos zero) h = rw h refl
  omit_number-same (pos (suc n)) h = rw (beq_refl k) refl
  omit_number-same (negsuc n) h = rw (beq_refl k) refl

  pub omit_text-other :
      (key t : String)
      → (k == key) ≡ false
      → find_field key (omit_text k t rest) ≡ find_field key rest
  unfolding find_field
  omit_text-other key t h = elim (Bool-cases (t == "")) [
    | inl blank ↦ rw blank refl
    | inr visible ↦ rw (visible, h) refl
  ]

  pub omit_text-same :
      (t : String) → find_field k rest ≡ none → read_text (find_field k (omit_text k t rest)) ≡ ok t
  unfolding find_field
  omit_text-same t h = elim (Bool-cases (t == "")) [
    | inl blank ↦ rw (blank, h) (ap ok (sym (beq→eq t "" blank)))
    | inr visible ↦ rw (visible, beq_refl k) refl
  ]

-- Reading a list back that was written
pub read_items-items_of :
    {A B : Type 0} (read : Json → Result B) (write : A → Json) (meant : A → B)
    → ((x : A) → read (write x) ≡ ok (meant x))
    → (xs : List A) → read_items read (items_of write xs) ≡ ok (map meant xs)
unfolding read_items
read_items-items_of read write meant same [] = refl
read_items-items_of read write meant same (x ∷ xs) =
    rw (same x, read_items-items_of read write meant same xs) refl

module _ {A : Type 0} (write : A → Json) (k : String) (rest : Fields) where
  pub omit_list-other :
      (key : String) (xs : List A)
      → (k == key) ≡ false
      → find_field key (omit_list write k xs rest) ≡ find_field key rest
  unfolding find_field
  omit_list-other key [] h = refl
  omit_list-other key (x ∷ xs) h = rw h refl

  pub omit_list-same :
      {B : Type 0} (read : Json → Result B) (meant : A → B)
      → ((x : A) → read (write x) ≡ ok (meant x))
      → (xs : List A) → find_field k rest ≡ none
      → read_list read (find_field k (omit_list write k xs rest)) ≡ ok (map meant xs)
  unfolding find_field
  omit_list-same read meant same [] h = rw h refl
  omit_list-same read meant same (x ∷ xs) h =
      rw (beq_refl k) (read_items-items_of read write meant same (x ∷ xs))
