-- ===== src/Ir/Validation/Values.antt =====
-- What `_validate_value` of src/ucf/ir/validation.py accepts.
use ucf.Prelude.{
  ℕ, suc, String, ◌≡◌, refl, ◌↔◌, List, [], ◌∷◌, ok, string_eq, contains, AreFresh-start, IsUnique,
  AreFresh, AreFresh-cons, contains-swap, raise_if-ok, >>-iff,
}
use ucf.Ir.Document.{
  IrValue, null_value, boolean_value, string_value, integer_value, decimal_value, timestamp_value,
  list_value, record_value, IrItems, no_items, item, RecordEntries, no_entries, entry,
}
use ucf.Ir.Errors.{duplicate_identity, IrLocation, at_field, at_index, ir_error}
use ucf.Ir.Validation.{validate_value, check_items, check_entries}

abbrev pub entry_names : RecordEntries → List String
entry_names no_entries = []
entry_names (entry name value entries) = name ∷ entry_names entries

-- No record inside the value repeats the name of an entry.
abbrev mutual
  pub IsValidValue : IrValue → Type 0
  IsValidValue null_value = Unit
  IsValidValue (boolean_value _) = Unit
  IsValidValue (string_value _) = Unit
  IsValidValue (integer_value _) = Unit
  IsValidValue (decimal_value _) = Unit
  IsValidValue (timestamp_value _) = Unit
  IsValidValue (list_value items) = AreValidItems items
  IsValidValue (record_value entries) = AreValidEntries entries × IsUnique (entry_names entries)

  pub AreValidItems : IrItems → Type 0
  AreValidItems no_items = Unit
  AreValidItems (item value items) = IsValidValue value × AreValidItems items

  pub AreValidEntries : RecordEntries → Type 0
  AreValidEntries no_entries = Unit
  AreValidEntries (entry name value entries) = IsValidValue value × AreValidEntries entries

mutual
  unfolding validate_value

  value_law :
      (value : IrValue) (location : IrLocation)
      → (validate_value value location ≡ ok tt) ↔ IsValidValue value
  value_law null_value location = (λ _. tt, λ _. refl)
  value_law (boolean_value _) location = (λ _. tt, λ _. refl)
  value_law (string_value _) location = (λ _. tt, λ _. refl)
  value_law (integer_value _) location = (λ _. tt, λ _. refl)
  value_law (decimal_value _) location = (λ _. tt, λ _. refl)
  value_law (timestamp_value _) location = (λ _. tt, λ _. refl)
  value_law (list_value items) location = items_law items (at_field location "items") 0
  value_law (record_value entries) location =
      let law = entries_law entries (at_field location "entries") 0 [] in
      (
        λ h. ((law.0 h).0, (law.0 h).1.1),
        λ v. law.1 (v.0, AreFresh-start (entry_names entries) v.1),
      )

  items_law :
      (items : IrItems) (location : IrLocation) (i : ℕ)
      → (check_items items location i ≡ ok tt) ↔ AreValidItems items
  items_law no_items location i = (λ _. tt, λ _. refl)
  items_law (item value items) location i =
      >>-iff (value_law value (at_index location i)) (items_law items location (suc i))

  entries_law :
      (entries : RecordEntries) (location : IrLocation) (i : ℕ) (seen : List String)
      → (check_entries entries location i seen ≡ ok tt)
        ↔ (AreValidEntries entries × AreFresh (contains seen) (entry_names entries))
  entries_law no_entries location i seen = (λ _. (tt, (tt, tt)), λ _. refl)
  entries_law (entry name value entries) location i seen =
      let rest = entries_law entries location (suc i) (name ∷ seen) in
      let one = value_law value (at_field (at_index location i) "value") in
      let fresh =
        AreFresh-cons (contains seen) (contains (name ∷ seen)) name (contains-swap seen name)
          (entry_names entries) in
      let new =
        raise_if-ok (contains seen name)
          (ir_error duplicate_identity (at_field (at_index location i) "name")) in
      let chain = >>-iff (>>-iff new one) rest in
      (
        λ h.
            let ((unseen, valid), (all, others)) = chain.0 h in
            ((valid, all), fresh.0 (unseen, others)),
        λ h. let (unseen, others) = fresh.1 h.1 in chain.1 ((unseen, h.0.0), (h.0.1, others)),
      )

pub validate_value-ok :
    (value : IrValue) (location : IrLocation)
    → (validate_value value location ≡ ok tt) ↔ IsValidValue value
unfolding value_law
validate_value-ok value location = value_law value location
