-- ===== src/Registers/Loaded.antt =====
-- What SetLoadedRegister leaves in the registers of eight bytes.
use men_debugger.Base.{
  ℕ, zero, suc, ◌+◌, ◌-◌, ◌*◌, ◌/◌, ◌%◌, ◌^◌, ◌<◌, ◌≤◌, ◌≡◌, ap, ◌∙◌, arith, if◌then◌else◌, leb,
  ltb, ◌&&◌, ◌||◌, true, sym, ◌≢◌,
}
use native.Mathlib.Nat.{pow-suc, one-le-pow, div-add-mod', div-div-eq-div-mul}
use men_debugger.Machine.Read.{div_mod_of_sum}
use men_debugger.Machine.{ok, u64_mod}
use men_debugger.Registers.{Registers, field_offset, field_size, overlay, set_loaded_register}

low_byte : (n w : ℕ) → w % 256 + 256 * (w / 256 % 256 ^ n) ≡ w % 256 ^ suc n
low_byte n w =
    sym
      (div_mod_of_sum (256 ^ suc n) (w / 256 / 256 ^ n) (w % 256 + 256 * (w / 256 % 256 ^ n)) w
        (omega (arith, pow-suc 256 n, one-le-pow n 256))
        (omega (
          arith,
          pow-suc 256 n,
          div-add-mod' (w / 256) (256 ^ n),
          ap (λ (x : ℕ). w / 256 / 256 ^ n * x) (pow-suc 256 n),
        ))).0

-- Bytes that all lie in the eight written ones are those of the value.
overlay-inside :
    (n k at old offset value : ℕ)
    → at ≡ offset + k
    → k + n ≤ 8
    → overlay n at old offset value ≡ value / 256 ^ k % 256 ^ n
unfolding overlay
overlay-inside zero k at old offset value e inside = omega arith
overlay-inside (suc n) k at old offset value e inside =
    let rest =
      overlay-inside n (suc k) (at + 1) (old / 256) offset value (omega arith) (omega arith) in
    let here : leb offset at && ltb at (offset + 8) ≡ true = ground arith in
    let index : at - offset ≡ k = omega arith in
    let next : value / 256 ^ suc k ≡ value / 256 ^ k / 256 =
      ap (λ (x : ℕ). value / x) (pow-suc 256 k) ∙ sym (div-div-eq-div-mul value (256 ^ k) 256) in
    rw (here, index, rest, next) (low_byte n (value / 256 ^ k))

overlay-all : (at old value : ℕ) → value < u64_mod → overlay 8 at old at value ≡ value
overlay-all at old value small =
    overlay-inside 8 0 at old at value (omega arith) (omega arith) ∙ omega arith

pub set_loaded_register-word :
    (regs : Registers) (reg value : ℕ)
    → reg ≤ 16
    → value < u64_mod
    → (regs' : Registers) × (set_loaded_register regs reg value ≡ ok regs')
      × (regs' reg ≡ value)
      × ((s : ℕ) → s ≤ 16 → s ≢ reg → regs' s ≡ regs s)
unfolding set_loaded_register field_offset field_size
set_loaded_register-word regs reg value low small = (
  λ s.
      if leb (field_offset s + field_size s) (field_offset reg)
        || leb (field_offset reg + 8) (field_offset s)
      then regs s
      else overlay (field_size s) (field_offset s) (regs s) (field_offset reg) value,
  ground arith,
  ground (arith, overlay-all (8 * reg) (regs reg) value small),
  λ s h ne. ground arith,
)
