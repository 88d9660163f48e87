-- ===== src/Controller/Queued.antt =====
-- From the game controller to the command queue.
use drone_os.Base.{
  ◌≡◌, refl, sym, ap, ◌∙◌, ℕ, zero, suc, ◌-◌, ◌≤◌, arith, Bool-cases, inl, inr, List, [], ◌∷◌, ◌++◌,
  map, append_assoc, append-nil, length, length-append, take, ltb,
}
use drone_os.Protocol.Handlers.{ControllerCommand, enqueue_controller_command, queue_capacity}
use drone_os.Controller.{Event, command_of, pump}

take-nil : {A : Type 0} (n : ℕ) → take {A = A} n [] ≡ []
take-nil zero = refl
take-nil (suc n) = refl

take-suc :
    {A : Type 0} (n k : ℕ) (x : A) (xs : List A) → n ≡ suc k → take n (x ∷ xs) ≡ x ∷ take k xs
take-suc n k x xs h = rw h refl

-- From a queue within its capacity, the loop adds the commands of the first events, in their order, up to
-- the capacity, and drops those of the rest.
pub pump-take :
    {P : Type 0} (es : List (Event P)) (q : List (ControllerCommand P))
    → length q ≤ queue_capacity
    → pump es q ≡ q ++ take (queue_capacity - length q) (map command_of es)
unfolding pump enqueue_controller_command
pump-take [] q h = sym (ap (◌++◌ q) (take-nil (queue_capacity - length q)) ∙ append-nil q)
pump-take (e ∷ es) q h =
    let c = command_of e in
    elim (Bool-cases (ltb (length q) queue_capacity)) [
      | inl room ↦
          let grown = length-append q (c ∷ []) in
          rw room (
            pump-take es (q ++ c ∷ []) (ground arith)
            ∙ append_assoc q (c ∷ []) _
            ∙ ap (◌++◌ q) (
                sym (
                  take-suc (queue_capacity - length q) (queue_capacity - length (q ++ c ∷ [])) c _
                    (ground arith))))
      | inr full ↦
          let none_left : queue_capacity - length q ≡ 0 = ground arith in
          rw full (pump-take es q h ∙ rw none_left refl)
    ]
