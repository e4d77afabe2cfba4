-- ===== src/TDecimal/Nibbles.antt =====
-- Nibbles packed two to a byte, and how the encoder's buffer grows by one nibble (Bcd).
use Prim.Native.Nat.{bit_or}
use rabbit_dex_backend.Common.{
  ℕ, zero, suc, ◌+◌, ◌*◌, ◌%◌, ◌<◌, ◌≡◌, refl, ap, Bool, true, false, not, ◌&&◌, ◌∙◌, List, [], ◌∷◌,
  ◌++◌, arith, ◌==◌, if◌then◌else◌, All,
}
use rabbit_dex_backend.TDecimal.Bcd.{Encoder, or_last, is_empty, put_digit}

abbrev pub IsNibble : ℕ → Type 0
IsNibble d = d < 16

abbrev pub pack : List ℕ → List ℕ
pack [] = []
pack (h ∷ []) = h * 16 ∷ []
pack (h ∷ l ∷ ns) = (h * 16 + l) ∷ pack ns

abbrev pub is_even : List ℕ → Bool
is_even [] = true
is_even (n ∷ []) = false
is_even (n ∷ m ∷ ns) = is_even ns

-- The low nibbles below `m` fit beside the high nibble `h`, and so for the high nibbles below `n`.
nibbles_fit : ℕ → ℕ → Bool
nibbles_fit h zero = true
nibbles_fit h (suc m) = bit_or (h * 16) m == h * 16 + m && nibbles_fit h m

rows_fit : ℕ → Bool
rows_fit zero = true
rows_fit (suc n) = nibbles_fit n 16 && rows_fit n

nibbles_fit_lem : (h d m : ℕ) → nibbles_fit h m ≡ true → d < m → bit_or (h * 16) d ≡ h * 16 + d
unfolding nibbles_fit
nibbles_fit_lem h d zero fit below = absurd (omega arith)
nibbles_fit_lem h d (suc m) fit below = ground (arith, nibbles_fit_lem h d m)

rows_fit_lem : (h n : ℕ) → rows_fit n ≡ true → h < n → nibbles_fit h 16 ≡ true
unfolding rows_fit
rows_fit_lem h zero fit below = absurd (omega arith)
rows_fit_lem h (suc n) fit below = ground (arith, rows_fit_lem h n)

all_rows_fit : rows_fit 16 ≡ true
unfolding rows_fit nibbles_fit
all_rows_fit = refl

-- A low nibble fits beside a high one.
pub or_nibbles : (h d : ℕ) → h < 16 → d < 16 → bit_or (h * 16) d ≡ h * 16 + d
or_nibbles h d high low = nibbles_fit_lem h d 16 (rows_fit_lem h 16 all_rows_fit high) low

or_last-cons :
    (b : ℕ) (buf : List ℕ) (x : ℕ) → is_empty buf ≡ false → or_last (b ∷ buf) x ≡ b ∷ or_last buf x
unfolding or_last
or_last-cons b [] x h = cc
or_last-cons b (b' ∷ buf) x h = refl

pub pack_nonempty : (n : ℕ) (ns : List ℕ) → is_empty (pack (n ∷ ns)) ≡ false
pack_nonempty n [] = refl
pack_nonempty n (m ∷ ns) = refl

-- The two ways to add a nibble.
pub or_last-pack :
    (ns : List ℕ) (d : ℕ)
    → is_even ns ≡ false
    → All IsNibble ns
    → d < 16
    → or_last (pack ns) d ≡ pack (ns ++ d ∷ [])
unfolding or_last
or_last-pack [] d e a h = cc
or_last-pack (n ∷ []) d e a h = rw (or_nibbles n d a.0 h)
or_last-pack (n ∷ m ∷ []) d e a h = cc
or_last-pack (n ∷ m ∷ k ∷ ns) d e a h =
    or_last-cons (n * 16 + m) (pack (k ∷ ns)) d (pack_nonempty k ns)
    ∙ ap (◌∷◌ (n * 16 + m)) (or_last-pack (k ∷ ns) d e a.1.1 h)

pub append-pack :
    (ns : List ℕ) (d : ℕ)
    → is_even ns ≡ true
    → d < 16
    → pack ns ++ (d * 16 % 256 ∷ []) ≡ pack (ns ++ d ∷ [])
append-pack [] d e h = ap (λ x. x ∷ []) (omega arith)
append-pack (n ∷ []) d e h = cc
append-pack (n ∷ m ∷ ns) d e h = ap (◌∷◌ (n * 16 + m)) (append-pack ns d e h)

pub is_even-snoc : (ns : List ℕ) (d : ℕ) → is_even (ns ++ d ∷ []) ≡ not (is_even ns)
is_even-snoc [] d = refl
is_even-snoc (n ∷ []) d = refl
is_even-snoc (n ∷ m ∷ ns) d = is_even-snoc ns d

pub is_even-cons : (n : ℕ) (ns : List ℕ) → is_even (n ∷ ns) ≡ not (is_even ns)
is_even-cons n [] = refl
is_even-cons n (m ∷ []) = refl
is_even-cons n (m ∷ k ∷ ns) = is_even-cons n ns

pub All-snoc : (ns : List ℕ) (d : ℕ) → All IsNibble ns → d < 16 → All IsNibble (ns ++ d ∷ [])
All-snoc [] d a h = (h, tt)
All-snoc (n ∷ ns) d a h = (a.0, All-snoc ns d a.1 h)

-- The significant digits that the loop has seen: leading zeroes do not count.
abbrev pub significant : List ℕ → ℕ → List ℕ
significant sig d = if is_empty sig && d == 0 then sig else sig ++ d ∷ []

abbrev pub collect : List ℕ → List ℕ → List ℕ
collect sig [] = sig
collect sig (d ∷ ds) = collect (significant sig d) ds

-- What the loop does with a digit.
unfoldable pub feed_digit : Encoder → ℕ → Encoder
feed_digit e d = if is_empty e.byte_buf && d == 0 then e else put_digit e d

unfoldable pub feed : Encoder → List ℕ → Encoder
feed e [] = e
feed e (d ∷ ds) = feed (feed_digit e d) ds

-- The buffer holds the significant digits behind the padding: a zero nibble, or nothing.
pub record Holds (pad : List ℕ) (e : Encoder) (sig : List ℕ) : Type 0 where
  pub parity : e.high_nibble ≡ is_even (pad ++ sig)
  pub packed : e.byte_buf ≡ (if is_empty sig then [] else pack (pad ++ sig))
  pub nibbles : All IsNibble (pad ++ sig)

abbrev pub pad_of : Bool → List ℕ
pad_of true = []
pad_of false = 0 ∷ []

abbrev pub IsDigit : ℕ → Type 0
IsDigit d = d < 10
