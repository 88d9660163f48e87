-- ===== src/Startup/Links.antt =====
-- What `initRadioLink` may return.
use drone_os.Base.{
  ◌≡◌, ◌≢◌, inl, inr, false, Option, none, some, List, [], ◌∷◌, Bytes, codes, text_eq, trim_space,
  equal_fold, ok, arith, Option-cases,
}
use drone_os.Protocol.Handlers.{find_function}
use drone_os.Config.{Radio}
use drone_os.Startup.{
  Output, link_value, error_value, other_value, expect_link, read_outputs, called, init_radio_link,
}

module _ {L E : Type 0} where
  -- The driver's first value is the link `l`, and its second is no error.
  pub data Returns (l : L) : List (Output L E) → Type 0 where
    returned :
        (b : Output L E) (rest : List (Output L E))
        → ((e : E) → b ≢ error_value e)
        → Returns l (link_value (some l) ∷ b ∷ rest)

  read_outputs-Returns :
      (name : Bytes) (os : List (Output L E)) (o : Option L)
      → read_outputs name os ≡ ok o
      → (l : L) × (o ≡ some l) × Returns l os
  unfolding read_outputs expect_link
  read_outputs-Returns name [] o h = cc
  read_outputs-Returns name (a ∷ []) o h = cc
  read_outputs-Returns name (a ∷ error_value e ∷ rest) o h = cc
  read_outputs-Returns name (link_value (some l) ∷ link_value m ∷ rest) o h =
      (l, cc, returned (link_value m) rest (λ e k. cc))
  read_outputs-Returns name (link_value (some l) ∷ other_value ∷ rest) o h =
      (l, cc, returned other_value rest (λ e k. cc))
  read_outputs-Returns name (link_value none ∷ link_value m ∷ rest) o h = cc
  read_outputs-Returns name (link_value none ∷ other_value ∷ rest) o h = cc
  read_outputs-Returns name (error_value e ∷ link_value m ∷ rest) o h = cc
  read_outputs-Returns name (error_value e ∷ other_value ∷ rest) o h = cc
  read_outputs-Returns name (other_value ∷ link_value m ∷ rest) o h = cc
  read_outputs-Returns name (other_value ∷ other_value ∷ rest) o h = cc

  -- With a name that is neither blank nor `none`, `initRadioLink` succeeds only with a link: the one that the
  -- driver of this name returns first, with no error behind it.
  pub init_radio_link-Returns :
      (drivers : List (Bytes × (Radio → List (Output L E)))) (name : Bytes) (cfg : Radio)
      (o : Option L)
      → text_eq (trim_space name) [] ≡ false
      → equal_fold name (codes "none") ≡ false
      → init_radio_link drivers name cfg ≡ ok o
      → (l : L) × (f : Radio → List (Output L E)) × (o ≡ some l)
        × (find_function name drivers ≡ some f)
        × Returns l (f cfg)
  unfolding init_radio_link called
  init_radio_link-Returns drivers name cfg o blank other h =
      elim (Option-cases (find_function name drivers)) [
        | inl e ↦ absurd (ground (arith, blank, other, e))
        | inr (f, e) ↦
            let (l, same, r) =
              read_outputs-Returns name (f cfg) o (ground (arith, blank, other, e)) in
            (l, f, same, e, r)
      ]
