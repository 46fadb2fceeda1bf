-- ===== src/Manifest/States.antt =====
-- The texts of states.
use chromifer.Base.{
  String, ◌≡◌, ◌↔◌, refl, some, ◌==◌, string_eq, eq_iff, arith, Bool-cases, inl, inr,
}
use chromifer.Manifest.Data.{
  MigrationState, legacy_cpp, bridged, rust_owned, state_text, parse_state,
}

-- A text is read as a state exactly when it is the text that the state is shown as.
pub parse_state_iff :
    (value : String) (s : MigrationState) → (parse_state value ≡ some s) ↔ (value ≡ state_text s)
unfolding parse_state state_text
parse_state_iff value s = (
  λ h. elim (Bool-cases (value == "legacy_cpp")) [
    | inl a ↦ let e : s ≡ legacy_cpp = ground arith in rw e ((eq_iff value "legacy_cpp").0 a)
    | inr a ↦ elim (Bool-cases (value == "bridged")) [
      | inl b ↦ let e : s ≡ bridged = ground arith in rw e ((eq_iff value "bridged").0 b)
      | inr b ↦ elim (Bool-cases (value == "rust_owned")) [
        | inl c ↦ let e : s ≡ rust_owned = ground arith in rw e ((eq_iff value "rust_owned").0 c)
        | inr c ↦ cc (rw (a, b, c) at h)
      ]
    ]
  ],
  λ e. rw e (shown s),
)
  where
    shown : (s : MigrationState) → parse_state (state_text s) ≡ some s
    shown legacy_cpp = refl
    shown bridged = refl
    shown rust_owned = refl
