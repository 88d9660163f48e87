-- ===== src/Protocol/Pair.antt =====
-- A JSON that knows two messages, for the tests.
use drone_os.Base.{
  ℕ, ◌≡◌, ◌≢◌, refl, subst, ℤ, eq_ℤ, eq_ℤ_iff, Bool, true, ◌&&◌, [], ◌∷◌, if◌then◌else◌, Bool-cases,
  inl, inr, Bytes, text_eq, text_eq_iff, Result, ok, err, arith,
}
use drone_os.Protocol.{Message, Json, IsText, IsJson}

unfoldable pub message_eq : Message → Message → Bool
message_eq m n = eq_ℤ m.id n.id && (text_eq m.cmd n.cmd && text_eq m.data_text n.data_text)

by_fields :
    (i j : ℤ) (a b c d : Bytes)
    → i ≡ j
    → a ≡ b
    → c ≡ d
    → ◌≡◌ {A = Message}
        (record { id = i; cmd = a; data_text = c })
        (record { id = j; cmd = b; data_text = d })
by_fields i j a b c d e f g = rw (e, f, g) refl

message_eq_sound : (m n : Message) → message_eq m n ≡ true → m ≡ n
unfolding message_eq
message_eq_sound m n h =
    by_fields m.id n.id m.cmd n.cmd m.data_text n.data_text (ground (arith, eq_ℤ_iff m.id n.id))
      (ground (arith, text_eq_iff m.cmd n.cmd))
      (ground (arith, text_eq_iff m.data_text n.data_text))

module _ (ask answer : Message) where
  unfoldable pub marshal : Message → Result ℕ Bytes
  unfolding message_eq
  marshal m =
      if message_eq m ask then ok (1 ∷ []) else if message_eq m answer then ok (2 ∷ []) else err 0

  unfoldable pub unmarshal : Bytes → Result ℕ Message
  unmarshal p =
      if text_eq p (1 ∷ []) then ok ask else if text_eq p (2 ∷ []) then ok answer else err 0

  abbrev pub two_messages : Json ℕ
  two_messages = record { marshal = marshal; unmarshal = unmarshal }

  marshal-cases : (m : Message) (p : Bytes) → marshal m ≡ ok p → (p ≢ []) × (unmarshal p ≡ ok m)
  unfolding marshal unmarshal text_eq
  marshal-cases m p h = elim (Bool-cases (message_eq m ask)) [
    | inl e ↦
        let k : ok (1 ∷ []) ≡ ok p = rw e at h in
        let same : 1 ∷ [] ≡ p = cc in rw (← same, message_eq_sound m ask e) (λ z. cc, refl)
    | inr e ↦ elim (Bool-cases (message_eq m answer)) [
      | inl e' ↦
          let k : ok (2 ∷ []) ≡ ok p = rw e' at (rw e at h) in
          let same : 2 ∷ [] ≡ p = cc in rw (← same, message_eq_sound m answer e') (λ z. cc, refl)
      | inr e' ↦ absurd (let k : err 0 ≡ ok p = rw e' at (rw e at h) in cc)
    ]
  ]

  unmarshal-cases :
      (m : Message) (p : Bytes) → IsText ask → IsText answer → unmarshal p ≡ ok m → IsText m
  unfolding unmarshal
  unmarshal-cases m p a b h = elim (Bool-cases (text_eq p (1 ∷ []))) [
    | inl e ↦ let k : ok ask ≡ ok m = rw e at h in let same : ask ≡ m = cc in subst IsText same a
    | inr e ↦ elim (Bool-cases (text_eq p (2 ∷ []))) [
      | inl e' ↦
          let k : ok answer ≡ ok m = rw e' at (rw e at h) in
          let same : answer ≡ m = cc in subst IsText same b
      | inr e' ↦ absurd (let k : err 0 ≡ ok m = rw e' at (rw e at h) in cc)
    ]
  ]

  pub two_messages-IsJson : IsText ask → IsText answer → IsJson two_messages
  two_messages-IsJson a b = record {
    unmarshal-marshal = λ m p good h. (marshal-cases m p h).1;
    unmarshal-IsText = λ m p h. unmarshal-cases m p a b h;
    marshal-ne-nil = λ m p h. (marshal-cases m p h).0;
  }
