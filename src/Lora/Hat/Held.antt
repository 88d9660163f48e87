-- ===== src/Lora/Hat/Held.antt =====
-- Which lines and ports are held.
use drone_os.Base.{
  ◌≡◌, refl, ℕ, Bool, true, false, Option, none, some, List, [], ◌∷◌, ◌++◌, ◌==◌, if◌then◌else◌,
  Bytes, text_eq, text_eq_iff, Result, ok, err, length-replicate, arith,
}
use drone_os.Config.{Radio}
use drone_os.Lora.{max_frame_size}
use drone_os.Lora.Refine.{IsValid}
use drone_os.Lora.Device.{FileSystem, DeviceError, resolve_serial_device}
use drone_os.Lora.Hat.{
  Handle, line, port, HatCall, takes, frees, sets, writes, HatDev, HatError, Hat, new_buffer,
  set_line, set_transparent_mode, close, ready, after_port, open_serial, after_m1, after_m0,
  new_lora_hat, after_resolve, open_radio, m0_pin, m1_pin, unresolved,
}

abbrev same_handle : Handle → Handle → Bool
same_handle (line a) (line b) = a == b
same_handle (port a) (port b) = text_eq a b
same_handle _ _ = false

abbrev without : Handle → List Handle → List Handle
without h [] = []
without h (k ∷ ks) = let rest = without h ks in if same_handle h k then ks else k ∷ rest

-- The handles held after the calls, from those held before.
abbrev pub held : List HatCall → List Handle → List Handle
held [] hs = hs
held (takes h ∷ cs) hs = held cs (h ∷ hs)
held (frees h ∷ cs) hs = held cs (without h hs)
held (sets l v ∷ cs) hs = held cs hs
held (writes b ∷ cs) hs = held cs hs

-- What a level a line was set to last, if it was.
abbrev pub level : ℕ → Option ℕ → List HatCall → Option ℕ
level l v [] = v
level l v (sets k u ∷ cs) =
    let other = level l v cs in let this = level l (some u) cs in if l == k then this else other
level l v (_ ∷ cs) = level l v cs

new_buffer-IsValid : IsValid new_buffer
unfolding new_buffer
new_buffer-IsValid =
    let n = length-replicate {A = ℕ} max_frame_size 0 in
    record { ordered = omega arith; within = omega arith; sized = n }

abbrev line_handle : Option ℕ → List Handle
line_handle none = []
line_handle (some l) = line l ∷ []

abbrev port_handle : Option Bytes → List Handle
port_handle none = []
port_handle (some device) = port device ∷ []

-- The handles that a HAT stores, the last one taken in front.
abbrev pub handles : Hat → List Handle
handles h = port_handle h.serial ++ line_handle h.m1 ++ line_handle h.m0

-- A line that the HAT drives was set to low last.
abbrev pub Low : Option ℕ → List HatCall → Type 0
Low none calls = Unit
Low (some l) calls = level l none calls ≡ some 0

-- What is true of the attempt to open a HAT on a device, with these calls.
abbrev pub Holds : {E : Type 0} → Bytes → Result (HatError E) Hat → List HatCall → Type 0
Holds device (err e) calls = held calls [] ≡ []
Holds device (ok hat) calls =
    (hat.serial ≡ some device)
    × IsValid hat.buffer
    × (held calls [] ≡ handles hat)
    × (held (calls ++ close hat) [] ≡ [])
    × Low hat.m0 calls
    × Low hat.m1 calls

text_eq_self : (a : Bytes) → text_eq a a ≡ true
text_eq_self a = (text_eq_iff a a).1 refl

module _ {E : Type 0} (dev : HatDev E) where
  open_usb-Holds :
      (device : Bytes) (o : Option E)
      → let r = after_port dev device false none none [] o in Holds device r.0 r.1
  unfolding after_port ready close
  open_usb-Holds device (some e) = refl
  open_usb-Holds device none =
      (refl, new_buffer-IsValid, refl, rw (text_eq_self device) refl, tt, tt)

  open_gpio-Holds :
      (device : Bytes) (o : Option E)
      → let calls = takes (line m0_pin) ∷ takes (line m1_pin) ∷ [] in
        let r = after_port dev device true (some m0_pin) (some m1_pin) calls o in
        Holds device r.0 r.1
  unfolding after_port ready close set_transparent_mode set_line
  open_gpio-Holds device (some e) = refl
  open_gpio-Holds device none =
      (refl, new_buffer-IsValid, refl, rw (text_eq_self device) refl, refl, refl)

  after_m1-Holds :
      (device : Bytes) (o : Option E) → let r = after_m1 dev device o in Holds device r.0 r.1
  unfolding after_m1 open_serial
  after_m1-Holds device (some e) = refl
  after_m1-Holds device none = open_gpio-Holds device _

  after_m0-Holds :
      (device : Bytes) (o : Option E) → let r = after_m0 dev device o in Holds device r.0 r.1
  unfolding after_m0
  after_m0-Holds device (some e) = refl
  after_m0-Holds device none = after_m1-Holds device _

  new_lora_hat-Holds :
      (device : Bytes) (use_gpio : Bool)
      → let r = new_lora_hat dev device use_gpio in Holds device r.0 r.1
  unfolding new_lora_hat open_serial
  new_lora_hat-Holds device true = after_m0-Holds device _
  new_lora_hat-Holds device false = open_usb-Holds device _

  -- What is true of `Main`: on an error nothing is held, and otherwise the device was resolved.
  abbrev pub Opens :
      Result (DeviceError E) (Bytes × Bool) → Result (HatError E) Hat × List HatCall → Type 0
  Opens (err e) (r, calls) = (r ≡ err (unresolved e)) × (calls ≡ [])
  Opens (ok (device, use_gpio)) (r, calls) = Holds device r calls

  after_resolve-Opens : (o : Result (DeviceError E) (Bytes × Bool)) → Opens o (after_resolve dev o)
  unfolding after_resolve
  after_resolve-Opens (err e) = (refl, refl)
  after_resolve-Opens (ok (device, use_gpio)) = new_lora_hat-Holds device use_gpio

  -- If the device cannot be resolved, `Main` fails and takes nothing. If it can be: where opening the HAT
  -- fails, every line and port that was taken is freed again; otherwise the HAT is on that device, its
  -- buffer is valid, it holds just the handles it stores, with its lines low, and `Close` frees them all.
  pub open_radio-Opens :
      (fs : FileSystem E) (s : Option Radio)
      → Opens (resolve_serial_device fs s) (open_radio dev fs s)
  unfolding open_radio
  open_radio-Opens fs s = after_resolve-Opens (resolve_serial_device fs s)
