-- ===== src/Playbook/Slots/Stable.antt =====
-- `normalize_slot_value` of app/playbooks/schema.py on its own results.
use weiquan_agent.Prelude.{
  String, Option, some, none, ◌≡◌, refl, string_eq, ok, ◌>>◌, Result-cases, inl, inr, arith, subst,
}
use weiquan_agent.Playbook.{
  Platform, Value, integer, number, string, date, SlotDefinition, SlotType, string_slot,
  number_slot, integer_slot, boolean_slot, date_slot, enum_slot,
}
use weiquan_agent.Playbook.Slots.{
  normal_form, normalize_string, normalize_enum, normalize_boolean, normalize_integer,
  normalize_number, normalize_date, check_length, check_range, normalize_slot_value, finite_number,
  iso_text,
}

-- What Python documents: stripping twice is stripping once, a float is its own float, and the ISO
-- text of a date is already stripped and reads back as itself. A date object prints as such a text.
pub record PlatformLaws (p : Platform) : Type 0 where
  pub strip_strip : (s : String) → p.strip (p.strip s) ≡ p.strip s
  pub float_float : (n x : p.N) → p.to_float n ≡ some x → p.to_float x ≡ some x
  pub iso_again : (s t : String) → p.iso_date s ≡ some t → p.iso_date (p.strip t) ≡ some t

abbrev pub IsIsoDate : (p : Platform) → Value p.N → Type 0
IsIsoDate p (date s) = p.iso_date (p.strip s) ≡ some s
IsIsoDate p _ = Unit

module _ (p : Platform) (laws : PlatformLaws p) where
  open p use {N, strip, to_float, iso_date}

  finite-stable :
      (n : N) (o : Option N)
      → to_float n ≡ o
      → (w : Value N) → finite_number p o ≡ ok w
      → normalize_number p w ≡ ok w
  unfolding normalize_number
  finite-stable n none e w h = cc
  finite-stable n (some x) e w h = ground (arith, laws.float_float n x)

  iso-stable :
      (s : String) (o : Option String)
      → iso_date s ≡ o
      → (w : Value N) → iso_text p o ≡ ok w
      → normalize_date p w ≡ ok w
  unfolding normalize_date
  iso-stable s none e w h = cc
  iso-stable s (some t) e w h = ground (arith, laws.iso_again s t)

  normal_form-stable :
      (slot : SlotDefinition N) (k : SlotType) (v w : Value N)
      → IsIsoDate p v
      → normal_form p slot k v ≡ ok w
      → normal_form p slot k w ≡ ok w
  unfolding normalize_string normalize_enum normalize_boolean normalize_integer normalize_number
      normalize_date
  normal_form-stable slot string_slot (string s) w i h = ground (arith, laws.strip_strip s)
  normal_form-stable slot string_slot _ w i h = ground (arith)
  normal_form-stable slot enum_slot (string s) w i h = ground (arith, laws.strip_strip s)
  normal_form-stable slot enum_slot _ w i h = ground (arith)
  normal_form-stable slot boolean_slot v w i h = ground (arith)
  normal_form-stable slot integer_slot v w i h = ground (arith)
  normal_form-stable slot number_slot (integer n) w i h = finite-stable n (to_float n) refl w h
  normal_form-stable slot number_slot (number n) w i h = finite-stable n (to_float n) refl w h
  normal_form-stable slot number_slot _ w i h = ground (arith)
  normal_form-stable slot date_slot (date s) w i h = ground (arith)
  normal_form-stable slot date_slot (string s) w i h =
      iso-stable (strip s) (iso_date (strip s)) refl w h
  normal_form-stable slot date_slot _ w i h = ground (arith)

  -- A value that `normalize_slot_value` accepts for a slot is returned in a form that it accepts
  -- for that slot and returns unchanged, if a date object that it was given prints as an ISO date.
  pub normalize_slot_value-stable :
      (slot : SlotDefinition N) (v w : Value N)
      → IsIsoDate p v
      → normalize_slot_value p slot v ≡ ok w
      → normalize_slot_value p slot w ≡ ok w
  unfolding normalize_slot_value
  normalize_slot_value-stable slot v w i h =
      elim (Result-cases (normal_form p slot slot.slot_type v)) [
        | inr (e, bad) ↦ absurd (cc (rw bad at h))
        | inl (x, formed) ↦ checked x formed (rw formed at h)
      ]
    where
      checked :
          (x : Value N)
          → normal_form p slot slot.slot_type v ≡ ok x
          → (check_length p slot x >> (check_range p slot x >> ok x)) ≡ ok w
          → normalize_slot_value p slot w ≡ ok w
      checked x formed k = elim (Result-cases (check_length p slot x)) [
        | inr (e, long) ↦ absurd (cc (rw long at k))
        | inl (u, fits) ↦ elim (Result-cases (check_range p slot x)) [
          | inr (e, outside) ↦ absurd (cc (rw (fits, outside) at k))
          | inl (u', inside) ↦
              let same : ok x ≡ ok w = rw (fits, inside) at k in
              let is_w : x ≡ w = ground (arith, same) in
              subst (λ y. normalize_slot_value p slot y ≡ ok y) is_w
                (rw (normal_form-stable slot slot.slot_type v x i formed, fits, inside) refl)
        ]
      ]
