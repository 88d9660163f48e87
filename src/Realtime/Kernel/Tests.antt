-- ===== src/Realtime/Kernel/Tests.antt =====
-- A kernel with no sysfs entry.
use drone_os.Base.{
  ℕ, ◌≡◌, ◌↔◌, refl, Bool, true, not, ◌&&◌, [], ◌∷◌, Bytes, codes, Result, ok, err, text_eq, arith,
  ◌==◌, if◌then◌else◌,
}
use drone_os.Realtime.Kernel.{
  KernelStatus, sysfs_path, sysfs_value, config_path, join_lines, SomeSets, Without,
  detect_kernel_realtime, detect_kernel_realtime-SomeSets, preempt_rt,
}

abbrev absent : ℕ → Bytes → Bool
absent n [] = true
absent n (c ∷ s) = not (c == n) && absent n s

absent-Without : (n : ℕ) (s : Bytes) → absent n s ≡ true → Without n s
absent-Without n [] h = tt
absent-Without n (c ∷ s) h = (ground arith, absent-Without n s (ground arith))

-- A file system with no sysfs entry, where the configuration has two lines.
abbrev no_sysfs : Bytes → Result ℕ Bytes
no_sysfs path =
    if text_eq path sysfs_path then err 2 else ok (join_lines (codes "A=y") (preempt_rt ∷ []))

detect_kernel_realtime-SomeSets_example :
    (s : KernelStatus) × (detect_kernel_realtime no_sysfs (ok (codes "6.6")) ≡ ok s)
    × ((s.enabled ≡ true) ↔ SomeSets (codes "A=y" ∷ preempt_rt ∷ []))
    × (s.source ≡ config_path (codes "6.6"))
detect_kernel_realtime-SomeSets_example =
    detect_kernel_realtime-SomeSets no_sysfs (ok (codes "6.6")) (codes "6.6") (codes "A=y")
      (preempt_rt ∷ []) (unfold text_eq sysfs_value in refl) refl
      (absent-Without 10 (codes "A=y") refl, (absent-Without 10 preempt_rt refl, tt))
      (unfold text_eq in refl)
