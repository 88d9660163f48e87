-- ===== src/Runner/Options/Checked.antt =====
-- What the checks of `parseFlags` let through.
use drone_os.Base.{
  ◌≡◌, ◌≢◌, sym, ap, ◌∙◌, subst, arith, Bool, none, List, [], ◌∷◌, ◌++◌, Bytes, codes, text_eq_iff,
  pos, ◌≤ℤ◌, Result, ok, err, Option-cases, inl, inr,
}
use drone_os.Runner.Options.{
  Options, FlagError, Parsed, check_options, checked, all_checked, after_trailing, after_leading,
  with_leading, parse_flags, take_words,
}

-- Options that the mode can work with.
pub record Fits (o : Options) (mode : Bytes) : Type 0 where
  pub baud_positive : pos 1 ≤ℤ o.baud
  pub timeout_positive : pos 1 ≤ℤ o.timeout
  pub marker : mode ≡ codes "wait" → o.wait_marker ≢ []
  pub command : mode ≡ codes "exec" → o.command ≢ []
  pub file : mode ≡ codes "upload" → o.file ≢ []
  pub remote : mode ≡ codes "upload" → o.remote ≢ []

module _ {E : Type 0} where
  check_options-Fits :
      (o : Options) (mode : Bytes) (a b c : Bool)
      → check_options {E = E} o mode a b c ≡ none
      → Fits o mode
  unfolding check_options
  check_options-Fits o mode a b c h = record {
    baud_positive = ground arith;
    timeout_positive = ground arith;
    marker = λ e n.
        let a = (text_eq_iff mode (codes "wait")).1 e in
        let b = (text_eq_iff o.wait_marker []).1 n in absurd (ground arith);
    command = λ e n.
        let a = (text_eq_iff mode (codes "exec")).1 e in
        let b = (text_eq_iff o.command []).1 n in absurd (ground arith);
    file = λ e n.
        let a = (text_eq_iff mode (codes "upload")).1 e in
        let b = (text_eq_iff o.file []).1 n in absurd (ground arith);
    remote = λ e n.
        let a = (text_eq_iff mode (codes "upload")).1 e in
        let b = (text_eq_iff o.remote []).1 n in absurd (ground arith);
  }

  checked-Fits :
      (p : Options) (mode : Bytes) (a b c : Bool) (o : Options) (m : Bytes)
      → checked {E = E} p mode (check_options p mode a b c) ≡ ok (o, m)
      → Fits o m
  unfolding checked
  checked-Fits p mode a b c o m h = elim (Option-cases (check_options {E = E} p mode a b c)) [
    | inr (e, k) ↦ absurd (cc (h, k))
    | inl k ↦
        let same : ok (p, mode) ≡ ok (o, m) = sym (ap (checked p mode) k) ∙ h in
        let both : (p, mode) ≡ (o, m) = cc same in
        subst (λ (q : Options × Bytes). Fits q.0 q.1) both (check_options-Fits p mode a b c k)
  ]

  all_checked-Fits :
      (mode : Bytes) (names : List Bytes) (r : Result (FlagError E) Options) (o : Options)
      (m : Bytes)
      → all_checked mode names r ≡ ok (o, m)
      → Fits o m
  unfolding all_checked checked
  all_checked-Fits mode names (err e) o m h = absurd (cc h)
  all_checked-Fits mode names (ok p) o m h = checked-Fits p mode _ _ _ o m h

  after_trailing-Fits :
      (mode : Bytes) (set : List Bytes) (r : Result E Parsed) (o : Options) (m : Bytes)
      → after_trailing mode set r ≡ ok (o, m)
      → Fits o m
  unfolding after_trailing
  after_trailing-Fits mode set (err e) o m h = absurd (cc h)
  after_trailing-Fits mode set (ok p) o m h =
      all_checked-Fits mode (set ++ p.set) (take_words p.options mode p.rest) o m h

  module _ (parse : Options → List Bytes → Result E Parsed) where
    after_leading-Fits :
        (p : Options) (set rest : List Bytes) (o : Options) (m : Bytes)
        → after_leading parse p set rest ≡ ok (o, m)
        → Fits o m
    unfolding after_leading
    after_leading-Fits p set [] o m h = absurd (cc h)
    after_leading-Fits p set (mode ∷ rest) o m h = after_trailing-Fits mode set (parse p rest) o m h

    with_leading-Fits :
        (r : Result E Parsed) (o : Options) (m : Bytes)
        → with_leading parse r ≡ ok (o, m)
        → Fits o m
    unfolding with_leading
    with_leading-Fits (err e) o m h = absurd (cc h)
    with_leading-Fits (ok p) o m h = after_leading-Fits p.options p.set p.rest o m h

    -- Options that `parseFlags` returns have a baud rate and a timeout above 0, in wait mode a marker, in exec
    -- mode a command, and in upload mode a file and a destination.
    pub parse_flags-Fits :
        (defaults : Options) (args : List Bytes) (o : Options) (m : Bytes)
        → parse_flags parse defaults args ≡ ok (o, m)
        → Fits o m
    unfolding parse_flags
    parse_flags-Fits defaults args o m h = with_leading-Fits (parse defaults args) o m h
