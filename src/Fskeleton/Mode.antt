-- ===== src/Fskeleton/Mode.antt =====
-- internal/fskeleton/mode.go: the packed 16-bit file mode.
use Prim.Native.Nat.{bit_and, bit_or}
use be_hierarchic.Prelude.{
  ℕ, ◌^◌, ◌<◌, ◌≡◌, refl, Bool, true, false, not, ◌&&◌, ◌||◌, arith, ltb, ◌==◌, ==_iff, ltb→lt,
  if◌then◌else◌,
}
use be_hierarchic.Prelude.Bits.{table, of_table, bit_and-le}

-- `bornSizeUnknown = 1 << 14` and the four values of the two type bits.
abbrev pub born_size_unknown : ℕ
born_size_unknown = 0x4000

abbrev pub type_regular : ℕ
type_regular = 0

abbrev pub type_link : ℕ
type_link = 0x1000

abbrev pub type_dir : ℕ
type_dir = 0x2000

abbrev pub type_implicit_dir : ℕ
type_implicit_dir = 0x3000

abbrev pub type_bits : ℕ
type_bits = 0x3000

-- Bits of the standard library's 32-bit `fs.FileMode`.
abbrev pub mode_dir : ℕ
mode_dir = 2 ^ 31

abbrev pub mode_symlink : ℕ
mode_symlink = 2 ^ 27

abbrev pub mode_setuid : ℕ
mode_setuid = 2 ^ 23

abbrev pub mode_setgid : ℕ
mode_setgid = 2 ^ 22

abbrev pub mode_sticky : ℕ
mode_sticky = 2 ^ 20

-- `m&flag != 0`
abbrev pub has : ℕ → ℕ → Bool
has m flag = not (bit_and m flag == 0)

-- `mode.Type`
unfoldable pub type_of : ℕ → ℕ
type_of m = bit_and m type_bits

-- `mode.IsDir`
unfoldable pub is_dir : ℕ → Bool
unfolding type_of
is_dir m = type_of m == type_dir || type_of m == type_implicit_dir

-- `mode.StdlibType`
unfoldable pub stdlib_type : ℕ → ℕ
unfolding type_of
stdlib_type m =
    if type_of m == type_link
    then mode_symlink
    else if type_of m == type_dir || type_of m == type_implicit_dir
    then mode_dir
    else 0

-- `mode.Stdlib`: `m2 |= flag` under each test.
unfoldable pub stdlib : ℕ → ℕ
unfolding stdlib_type
stdlib m =
    let m2 = stdlib_type m in
    let m3 = bit_or m2 (if has m 0o4000 then mode_setuid else 0) in
    let m4 = bit_or m3 (if has m 0o2000 then mode_setgid else 0) in
    let m5 = bit_or m4 (if has m 0o1000 then mode_sticky else 0) in bit_or m5 (bit_and m 0o777)

-- `permsFromStdlib`
unfoldable pub perms_from_stdlib : ℕ → ℕ
perms_from_stdlib m =
    let m2 = if has m mode_setuid then 0o4000 else 0 in
    let m3 = bit_or m2 (if has m mode_setgid then 0o2000 else 0) in
    let m4 = bit_or m3 (if has m mode_sticky then 0o1000 else 0) in bit_or m4 (bit_and m 0o777)

round_trip_table : table 0x8000 (λ m. perms_from_stdlib (stdlib m) == bit_and m 0o7777) ≡ true
unfolding table perms_from_stdlib stdlib
round_trip_table = refl

-- The permissions of a packed mode survive the way to the standard library's mode and back.
pub perms_from_stdlib-stdlib :
    (m : ℕ) → m < 0x8000 → perms_from_stdlib (stdlib m) ≡ bit_and m 0o7777
perms_from_stdlib-stdlib m h = (==_iff _ _).0 (of_table 0x8000 _ m round_trip_table h)

abbrev pub flag : Bool → ℕ → ℕ
flag b f = if b then f else 0

joined_table :
    (a b c : Bool)
    → table 512
        (λ m. ltb (bit_or (bit_or (bit_or (flag a 0o4000) (flag b 0o2000)) (flag c 0o1000)) m) 4096)
      ≡ true
unfolding table
joined_table true true true = refl
joined_table true true false = refl
joined_table true false true = refl
joined_table true false false = refl
joined_table false true true = refl
joined_table false true false = refl
joined_table false false true = refl
joined_table false false false = refl

-- The packed permissions of any standard mode leave the type bits free.
pub perms_from_stdlib-lt : (m : ℕ) → perms_from_stdlib m < 4096
unfolding perms_from_stdlib
perms_from_stdlib-lt m = ltb→lt _ _ (
    of_table 512 _ (bit_and m 0o777)
      (joined_table (has m mode_setuid) (has m mode_setgid) (has m mode_sticky))
      (omega (arith, bit_and-le m 0o777)))

kind_table :
    table 4096 (λ p.
      type_of (bit_or p type_dir) == type_dir
      && (is_dir (bit_or p type_dir)
          && (not (is_dir (bit_or p type_link))
              && (not (is_dir (bit_or p type_regular))
                  && (not (is_dir (bit_or (bit_or p type_regular) born_size_unknown))
                      && type_of (bit_or p type_link) == type_link)))))
    ≡ true
unfolding table is_dir
kind_table = refl

-- What the type bits say after they are joined to permissions.
pub record HasKinds (p : ℕ) : Type 0 where
  pub dir_type : type_of (bit_or p type_dir) ≡ type_dir
  pub dir_is_dir : is_dir (bit_or p type_dir) ≡ true
  pub link_is_no_dir : is_dir (bit_or p type_link) ≡ false
  pub regular_is_no_dir : is_dir (bit_or p type_regular) ≡ false
  pub unknown_is_no_dir : is_dir (bit_or (bit_or p type_regular) born_size_unknown) ≡ false
  pub link_type : type_of (bit_or p type_link) ≡ type_link

pub perms_from_stdlib-HasKinds : (m : ℕ) → HasKinds (perms_from_stdlib m)
perms_from_stdlib-HasKinds m =
    let e = of_table 4096 _ (perms_from_stdlib m) kind_table (perms_from_stdlib-lt m) in
    record {
      dir_type = ground (arith, e);
      dir_is_dir = ground (arith, e);
      link_is_no_dir = ground (arith, e);
      regular_is_no_dir = ground (arith, e);
      unknown_is_no_dir = ground (arith, e);
      link_type = ground (arith, e);
    }
