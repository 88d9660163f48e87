-- ===== src/Scan/Detect/I2c.antt =====
-- internal/drone/i2c_probe.go: `readI2CRegister`, with its system calls in their order. What a call answers
-- may depend on the calls before it.
use drone_os.Base.{
  ◌≡◌, refl, ap, ◌↔◌, ◌⊎◌, inl, inr, arith, All, All-append, ℕ, Option, none, some, List, [], ◌∷◌,
  ◌++◌, ℤ, Bytes, codes, decimal_ℤ, Result, ok, err,
}

pub data I2cCall : Type 0 where
  opens_bus closes_bus : Bytes → I2cCall
  selects : ℤ → I2cCall
  writes : ℕ → I2cCall
  reads : I2cCall

-- Opening a bus, selecting an address, and writing and reading one byte, after the calls in the list. A
-- read that succeeds may give no byte.
pub record I2cDev (E : Type 0) : Type 0 where
  pub open_bus : Bytes → Option E
  pub select : List I2cCall → ℤ → Option E
  pub write_byte : List I2cCall → ℕ → Option E
  pub read_byte : List I2cCall → Result E (Option ℕ)

pub data I2cError (E : Type 0) : Type 0 where
  open_bus_failed : Bytes → E → I2cError E
  select_failed : ℤ → E → I2cError E
  write_failed read_failed : ℕ → E → I2cError E

-- `/dev/i2c-%d`
abbrev pub bus_path : ℤ → Bytes
bus_path bus = codes "/dev/i2c-" ++ decimal_ℤ bus

module _ {E : Type 0} (dev : I2cDev E) where
  -- What a read left in the buffer of one byte.
  byte_read : ℕ → Result E (Option ℕ) → Result (I2cError E) ℕ
  byte_read reg (err e) = err (read_failed reg e)
  byte_read reg (ok none) = ok 0
  byte_read reg (ok (some b)) = ok b

  -- The answer, and the calls made so far.
  after_write : List I2cCall → ℕ → Option E → Result (I2cError E) ℕ × List I2cCall
  unfolding byte_read
  after_write calls reg (some e) = (err (write_failed reg e), calls)
  after_write calls reg none = (byte_read reg (dev.read_byte calls), calls ++ reads ∷ [])

  after_select : List I2cCall → ℤ → ℕ → Option E → Result (I2cError E) ℕ × List I2cCall
  unfolding after_write
  after_select calls addr reg (some e) = (err (select_failed addr e), calls)
  after_select calls addr reg none =
      after_write (calls ++ writes reg ∷ []) reg (dev.write_byte calls reg)

  -- The deferred `handle.Close()`.
  closed : Bytes → Result (I2cError E) ℕ × List I2cCall → Result (I2cError E) ℕ × List I2cCall
  closed path (r, calls) = (r, calls ++ closes_bus path ∷ [])

  after_open : Bytes → ℤ → ℕ → Option E → Result (I2cError E) ℕ × List I2cCall
  unfolding after_select closed
  after_open path addr reg (some e) = (err (open_bus_failed path e), [])
  after_open path addr reg none =
      let opened = opens_bus path ∷ [] in
      closed path (after_select (opened ++ selects addr ∷ []) addr reg (dev.select opened addr))

  unfoldable pub read_i2c_register : ℤ → ℤ → ℕ → Result (I2cError E) ℕ × List I2cCall
  unfolding after_open
  read_i2c_register bus addr reg = after_open (bus_path bus) addr reg (dev.open_bus (bus_path bus))

module _ {E : Type 0} (dev : I2cDev E) where
  -- What the buffer of one zero byte holds after a read.
  abbrev buffer_byte : Option ℕ → ℕ
  buffer_byte none = 0
  buffer_byte (some b) = b

  abbrev pub Gives : List I2cCall → ℕ → Type 0
  Gives calls b = (o : Option ℕ) × (dev.read_byte calls ≡ ok o) × (buffer_byte o ≡ b)

  -- The bus opens, the address and the register can be selected there, and then the read gives the byte.
  abbrev pub HoldsByte : ℤ → ℤ → ℕ → ℕ → Type 0
  HoldsByte bus addr reg b =
      let opened = opens_bus (bus_path bus) ∷ [] in
      let selected = opened ++ selects addr ∷ [] in
      (dev.open_bus (bus_path bus) ≡ none)
      × (dev.select opened addr ≡ none)
      × (dev.write_byte selected reg ≡ none)
      × Gives (selected ++ writes reg ∷ []) b

  byte_read_iff :
      (reg b : ℕ) (r : Result E (Option ℕ))
      → (byte_read dev reg r ≡ ok b) ↔ ((o : Option ℕ) × (r ≡ ok o) × (buffer_byte o ≡ b))
  unfolding byte_read
  byte_read_iff reg b (err e) = ground arith
  byte_read_iff reg b (ok none) = (λ h. (none, refl, cc), λ (o, e, h). ground arith)
  byte_read_iff reg b (ok (some c)) = (λ h. (some c, refl, cc), λ (o, e, h). ground arith)

  after_write_iff :
      (calls : List I2cCall) (reg b : ℕ) (o : Option E)
      → ((after_write dev calls reg o).0 ≡ ok b) ↔ ((o ≡ none) × Gives calls b)
  unfolding after_write
  after_write_iff calls reg b (some e) = ground arith
  after_write_iff calls reg b none =
      let (there, back) = byte_read_iff reg b (dev.read_byte calls) in
      (λ h. (refl, there h), λ (e, h). back h)

  after_select_iff :
      (calls : List I2cCall) (addr : ℤ) (reg b : ℕ) (o : Option E)
      → ((after_select dev calls addr reg o).0 ≡ ok b)
        ↔ ((o ≡ none) × (dev.write_byte calls reg ≡ none) × Gives (calls ++ writes reg ∷ []) b)
  unfolding after_select
  after_select_iff calls addr reg b (some e) = ground arith
  after_select_iff calls addr reg b none =
      let (there, back) =
        after_write_iff (calls ++ writes reg ∷ []) reg b (dev.write_byte calls reg) in
      (λ h. (refl, (there h).0, (there h).1), λ (e, k, g). back (k, g))

  after_open_iff :
      (path : Bytes) (addr : ℤ) (reg b : ℕ) (o : Option E)
      → let opened = opens_bus path ∷ [] in
        let selected = opened ++ selects addr ∷ [] in
        ((after_open dev path addr reg o).0 ≡ ok b) ↔ (
          (o ≡ none)
          × (dev.select opened addr ≡ none)
          × (dev.write_byte selected reg ≡ none)
          × Gives (selected ++ writes reg ∷ []) b)
  unfolding after_open closed
  after_open_iff path addr reg b (some e) = ground arith
  after_open_iff path addr reg b none =
      let opened = opens_bus path ∷ [] in
      let (there, back) =
        after_select_iff (opened ++ selects addr ∷ []) addr reg b (dev.select opened addr) in
      (λ h. let (x, y, g) = there h in (refl, x, y, g), λ (e, x, y, g). back (x, y, g))

  pub read_i2c_register_iff :
      (bus addr : ℤ) (reg b : ℕ)
      → ((read_i2c_register dev bus addr reg).0 ≡ ok b) ↔ HoldsByte bus addr reg b
  unfolding read_i2c_register
  read_i2c_register_iff bus addr reg b =
      after_open_iff (bus_path bus) addr reg b (dev.open_bus (bus_path bus))

  -- A call on a bus that is open.
  abbrev InUse : I2cCall → Type 0
  InUse (opens_bus path) = ⊥
  InUse (closes_bus path) = ⊥
  InUse _ = Unit {0}

  -- Nothing happens, or the bus is opened, used and closed, once each.
  abbrev pub OpensAndCloses : Bytes → List I2cCall → Type 0
  OpensAndCloses path calls =
      (calls ≡ [])
      ⊎ ((used : List I2cCall) × All InUse used
          × (calls ≡ opens_bus path ∷ used ++ closes_bus path ∷ []))

  after_write-InUse :
      (used : List I2cCall) (path : Bytes) (reg : ℕ) (o : Option E)
      → All InUse used
      → (used' : List I2cCall) × All InUse used'
        × ((after_write dev (opens_bus path ∷ used) reg o).1 ≡ opens_bus path ∷ used')
  unfolding after_write
  after_write-InUse used path reg (some e) h = (used, h, refl)
  after_write-InUse used path reg none h =
      (used ++ reads ∷ [], All-append InUse used _ h (tt, tt), refl)

  after_select-InUse :
      (path : Bytes) (addr : ℤ) (reg : ℕ) (o : Option E)
      → (used : List I2cCall) × All InUse used
        × ((after_select dev (opens_bus path ∷ selects addr ∷ []) addr reg o).1
            ≡ opens_bus path ∷ used)
  unfolding after_select
  after_select-InUse path addr reg (some e) = (selects addr ∷ [], (tt, tt), refl)
  after_select-InUse path addr reg none =
      after_write-InUse (selects addr ∷ writes reg ∷ []) path reg _ (tt, (tt, tt))

  after_open-OpensAndCloses :
      (path : Bytes) (addr : ℤ) (reg : ℕ) (o : Option E)
      → OpensAndCloses path (after_open dev path addr reg o).1
  unfolding after_open closed
  after_open-OpensAndCloses path addr reg (some e) = inl refl
  after_open-OpensAndCloses path addr reg none =
      let (used, h, same) =
        after_select-InUse path addr reg (dev.select (opens_bus path ∷ []) addr) in
      inr (used, h, ap (λ calls. calls ++ closes_bus path ∷ []) same)

  -- Whatever fails, a bus that is opened is closed at the end, and no other one is touched.
  pub read_i2c_register-OpensAndCloses :
      (bus addr : ℤ) (reg : ℕ)
      → OpensAndCloses (bus_path bus) (read_i2c_register dev bus addr reg).1
  unfolding read_i2c_register
  read_i2c_register-OpensAndCloses bus addr reg =
      after_open-OpensAndCloses (bus_path bus) addr reg _
