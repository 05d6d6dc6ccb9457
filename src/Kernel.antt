-- ===== src/Kernel.antt =====
-- What the drivers take from the kernel: return codes, and the register access of regmap, of
-- SMBus and of MMIO. The kernel's code is not part of the repository, so each service is a record
-- of functions over an abstract state of the hardware, and what the drivers rely on is a record
-- of laws beside it.
pub mod Errno
pub mod Memory
use fboss_bsp_kmods.Base.{
  ℕ, ◌≡◌, ◌<◌, ◌^◌, arith, ◌==◌, if◌then◌else◌, ◌⊎◌, inl, inr, refl, sym, ap, ◌∙◌, bit_and, bit_or,
}
use fboss_bsp_kmods.Bits.{not_u32}

-- The result of a function that returns a value or a negative error code: `err e` is the return
-- of `-e`, and `undefined` stands for a step that C leaves undefined.
pub data Ret {ℓ} (A : Type ℓ) : Type ℓ where
  ok : A → Ret A
  err : ℕ → Ret A
  undefined : Ret A

-- To split on a result and keep the equation.
pub Ret-cases {ℓ} :
    {A : Type ℓ} (r : Ret A) → ((a : A) × (r ≡ ok a)) ⊎ (((e : ℕ) × (r ≡ err e)) ⊎ (r ≡ undefined))
Ret-cases (ok a) = inl (a, refl)
Ret-cases (err e) = inr (inl (e, refl))
Ret-cases undefined = inr (inr refl)

-- A call in a state of the hardware, which an error does not undo.
abbrev pub Io : Type 0 → Type 0 → Type 0
Io S A = S → Ret A × S

module _ {S A : Type 0} where
  abbrev pub pure : A → Io S A
  pure a s = (ok a, s)

  abbrev pub fail : ℕ → Io S A
  fail e s = (err e, s)

  abbrev pub fault : Io S A
  fault s = (undefined, s)

  -- A result that the hardware has no part in.
  abbrev pub lift : Ret A → Io S A
  lift r s = (r, s)

module _ {S A B : Type 0} where
  abbrev pub and_then : Ret A × S → (A → Io S B) → Ret B × S
  and_then (ok a, s) k = k a s
  and_then (err e, s) k = (err e, s)
  and_then (undefined, s) k = (undefined, s)

  infixl 5 ◌>>=◌ ◌>>◌
  abbrev pub ◌>>=◌ : Io S A → (A → Io S B) → Io S B
  ◌>>=◌ m k s = and_then (m s) k

  abbrev pub ◌>>◌ : Io S A → Io S B → Io S B
  ◌>>◌ m k s = and_then (m s) (λ _. k)

-- The registers of a device after a write to one of them.
abbrev pub update : (ℕ → ℕ) → ℕ → ℕ → ℕ → ℕ
update regs a v b = if b == a then v else regs b

-- A register map (`regmap_read`, `regmap_write`), or an I2C client
-- (`i2c_smbus_read_byte_data`, `i2c_smbus_write_byte_data`).
pub record Regmap (S : Type 0) : Type 0 where
  pub read : ℕ → Io S ℕ
  pub write : ℕ → ℕ → Io S (Unit {0})

-- What `dev_get_regmap` returns: a register map, an encoded error, or NULL.
pub data Lookup (S : Type 0) : Type 0 where
  found : Regmap S → Lookup S
  err_ptr : ℕ → Lookup S
  null : Lookup S

-- The registers hold what was last written to them, at `w` bits each, and an access that fails
-- changes none: what a driver relies on for registers that the hardware does not change by itself.
pub record IsRegisterFile {S : Type 0} (m : Regmap S) (w : ℕ) (reg : S → ℕ → ℕ) : Type 0 where
  pub reg_lt : (s : S) (a : ℕ) → reg s a < 2 ^ w
  pub read_ok : (s : S) (a v : ℕ) (t : S) → m.read a s ≡ (ok v, t) → v ≡ reg s a
  pub read_reg : (s : S) (a b : ℕ) → reg (m.read a s).1 b ≡ reg s b
  pub write_ok :
      (s : S) (a v : ℕ) (t : S) (b : ℕ)
      → v < 2 ^ w
      → m.write a v s ≡ (ok tt, t)
      → reg t b ≡ update (reg s) a v b
  pub write_err :
      (s : S) (a v : ℕ) (t : S) (b e : ℕ) → m.write a v s ≡ (err e, t) → reg t b ≡ reg s b

module _ {S A B : Type 0} where
  -- A chain that returns a value has returned one at each step.
  pub and_then_ok :
      (r : Ret A × S) (k : A → Io S B) {b : B} {t : S}
      → and_then r k ≡ (ok b, t)
      → (a : A) × (s : S) × (r ≡ (ok a, s)) × (k a s ≡ (ok b, t))
  and_then_ok (ok a, s) k h = (a, s, refl, h)
  and_then_ok (err e, s) k h = cc
  and_then_ok (undefined, s) k h = cc

  -- A chain that fails has failed at one of its steps.
  pub and_then_err :
      (r : Ret A × S) (k : A → Io S B) {e : ℕ} {t : S}
      → and_then r k ≡ (err e, t)
      → (r ≡ (err e, t)) ⊎ ((a : A) × (s : S) × (r ≡ (ok a, s)) × (k a s ≡ (err e, t)))
  and_then_err (ok a, s) k h = inr (a, s, refl, h)
  and_then_err (err e, s) k h = inl (cc)
  and_then_err (undefined, s) k h = cc

module _ {S : Type 0} {m : Regmap S} {w : ℕ} {reg : S → ℕ → ℕ} (file : IsRegisterFile m w reg) where
  -- The registers after a read are those before it, whatever it returned.
  pub read_keeps : (s t : S) (a b : ℕ) {r : Ret ℕ} → m.read a s ≡ (r, t) → reg t b ≡ reg s b
  read_keeps s t a b h = ap (λ (p : Ret ℕ × S). reg p.1 b) (sym h) ∙ file.read_reg s a b

-- `regmap_update_bits`, with the documented effect: of a register, the bits in the mask are
-- replaced in one step.
abbrev pub UpdateBits : Type 0 → Type 0
UpdateBits S = ℕ → ℕ → ℕ → Io S (Unit {0})

pub record IsUpdate {S : Type 0} (w : ℕ) (update_bits : UpdateBits S) (reg : S → ℕ → ℕ)
    : Type 0 where
  pub update_ok :
      (s : S) (a mask bits : ℕ) (t : S) (b : ℕ)
      → bits < 2 ^ w
      → update_bits a mask bits s ≡ (ok tt, t)
      → reg t b ≡ update (reg s) a (bit_or (bit_and (reg s a) (not_u32 mask)) (bit_and bits mask)) b

module _ {S : Type 0} {m : Regmap S} {w : ℕ} {reg : S → ℕ → ℕ} (file : IsRegisterFile m w reg) where
  -- A read that returns a value returns the register's.
  pub read_ok_inv :
      {A : Type 0} (a : ℕ) (k : ℕ → Io S A) (s : S) {r : A} {t : S}
      → and_then (m.read a s) k ≡ (ok r, t)
      → (u : S) × (k (reg s a) u ≡ (ok r, t)) × ((b : ℕ) → reg u b ≡ reg s b)
  read_ok_inv a k s h =
      let (v, u, got, done) = and_then_ok (m.read a s) k h in
      let same : v ≡ reg s a = file.read_ok s a v u got in
      (u, rw same at done, λ b. read_keeps file s u a b got)

  -- A read, a change and a write that succeed leave the change in the register, and the other
  -- registers alone.
  pub change_ok :
      (a : ℕ) (f : ℕ → ℕ) (s t : S)
      → f (reg s a) < 2 ^ w
      → and_then (m.read a s) (λ v. m.write a (f v)) ≡ (ok tt, t)
      → (b : ℕ) → reg t b ≡ update (reg s) a (f (reg s a)) b
  change_ok a f s t small h b =
      let (u, put, kept) = read_ok_inv a (λ v. m.write a (f v)) s h in
      ground (arith, file.write_ok u a (f (reg s a)) t b small put, kept b)
