-- ===== src/Soql/Lexer/Progress.antt =====
-- The lexer's invariant and its loops (internal/soql/lexer.go).
use mock_salesforce.Base.{
  ℕ, zero, suc, ◌+◌, ◌-◌, ◌≤◌, ◌<◌, ◌≡◌, refl, ap, inl, inr, Bool, true, false, ◌||◌, ◌&&◌, [], ◌∷◌,
  Bytes, arith, length, get_or, Bool-cases, ◌==◌, if◌then◌else◌,
}
use mock_salesforce.Soql.Lexer.{
  Lexer, read_char, new_lexer, peek_char, is_digit, is_space, advance_while, enough,
  skip_whitespace, skip_digits, skip_minus, skip_fraction, read_number, skip_escape, string_body,
  skip_quote, read_string,
}

-- `ch` is the byte at `pos`, and `readPos` the position behind it.
pub record IsValid (l : Lexer) : Type 0 where
  pub next : l.read_pos ≡ l.pos + 1
  pub byte : l.ch ≡ get_or l.input l.pos 0

-- `l'` stands at `l` or behind it, over the same input.
pub record Follows (l l' : Lexer) : Type 0 where
  pub same : l'.input ≡ l.input
  pub valid : IsValid l'
  pub forward : l.pos ≤ l'.pos

pub Follows-refl : (l : Lexer) → IsValid l → Follows l l
Follows-refl l v = record { same = refl; valid = v; forward = omega arith }

pub Follows-trans : {a b c : Lexer} → Follows a b → Follows b c → Follows a c
Follows-trans f g = record { same = cc (f.same, g.same); valid = g.valid; forward = omega arith }

-- Past the end the byte is 0.
pub get_or-pos : (s : Bytes) (i : ℕ) → ((get_or s i 0 == 0) ≡ false) → i < length s
get_or-pos [] i h = ground arith
get_or-pos (c ∷ s) zero h = omega arith
get_or-pos (c ∷ s) (suc i) h = omega (arith, get_or-pos s i h)

pub inside : (l : Lexer) → IsValid l → (l.ch == 0) ≡ false → l.pos < length l.input
inside l v h = get_or-pos l.input l.pos (ground arith)

pub new_lexer-IsValid : (s : Bytes) → IsValid (new_lexer s)
unfolding new_lexer
new_lexer-IsValid s = record { next = omega arith; byte = refl }

pub read_char-Follows : (l : Lexer) → IsValid l → Follows l (read_char l)
unfolding read_char
read_char-Follows l v = record {
  same = refl;
  valid = record { next = refl; byte = refl };
  forward = omega arith;
}

pub pos-read_char : (l : Lexer) → IsValid l → (read_char l).pos ≡ l.pos + 1
unfolding read_char
pos-read_char l v = v.next

-- A test that fails at 0 passes only before the end of the input.
pub nonzero : (p : ℕ → Bool) (c : ℕ) → p 0 ≡ false → p c ≡ true → (c == 0) ≡ false
nonzero p c z h = ground arith

module _ (p : ℕ → Bool) where
  pub advance_while_more :
      (fuel : ℕ) (l : Lexer)
      → p l.ch ≡ true
      → advance_while p (suc fuel) l ≡ advance_while p fuel (read_char l)
  unfolding advance_while
  advance_while_more fuel l h = rw (h, advance_while)

  pub advance_while_done : (fuel : ℕ) (l : Lexer) → p l.ch ≡ false → advance_while p fuel l ≡ l
  unfolding advance_while
  advance_while_done zero l h = refl
  advance_while_done (suc fuel) l h = rw (h, advance_while)

  pub advance_while-Follows :
      (fuel : ℕ) (l : Lexer) → IsValid l → Follows l (advance_while p fuel l)
  advance_while-Follows zero l v = unfold advance_while in Follows-refl l v
  advance_while-Follows (suc fuel) l v = elim (Bool-cases (p l.ch)) [
    | inl more ↦
        let step = read_char-Follows l v in
        rw (advance_while_more fuel l more)
          (Follows-trans step (advance_while-Follows fuel (read_char l) step.valid))
    | inr done ↦ rw (advance_while_done (suc fuel) l done) (Follows-refl l v)
  ]

  -- The loop ends by its test, never by its fuel.
  pub advance_while_stops :
      (fuel : ℕ) (l : Lexer)
      → p 0 ≡ false
      → IsValid l
      → length l.input - l.pos < fuel
      → p (advance_while p fuel l).ch ≡ false
  advance_while_stops zero l z v h = absurd (omega arith)
  advance_while_stops (suc fuel) l z v h = elim (Bool-cases (p l.ch)) [
    | inl more ↦
        let step = read_char-Follows l v in
        let here = inside l v (nonzero p l.ch z more) in
        rw (advance_while_more fuel l more) (
          advance_while_stops fuel (read_char l) z step.valid
            (omega (arith, ap length step.same, pos-read_char l v)))
    | inr done ↦ rw (advance_while_done (suc fuel) l done) done
  ]

  -- A byte that passes the test is passed over.
  pub advance_while-moves :
      (fuel : ℕ) (l : Lexer)
      → p l.ch ≡ true
      → IsValid l
      → l.pos < (advance_while p (suc fuel) l).pos
  advance_while-moves fuel l h v =
      let step = advance_while-Follows fuel (read_char l) (read_char-Follows l v).valid in
      rw (advance_while_more fuel l h) (omega (arith, step.forward, pos-read_char l v))

pub skip_whitespace-Follows : (l : Lexer) → IsValid l → Follows l (skip_whitespace l)
unfolding skip_whitespace
skip_whitespace-Follows l v = advance_while-Follows is_space (enough l) l v

pub skip_digits-Follows : (l : Lexer) → IsValid l → Follows l (skip_digits l)
unfolding skip_digits
skip_digits-Follows l v = advance_while-Follows is_digit (enough l) l v

-- `if b { l.readChar() }`
Follows-if : (b : Bool) (l m : Lexer) → IsValid l → Follows l m → Follows l (if b then m else l)
Follows-if true l m v f = f
Follows-if false l m v f = Follows-refl l v

pub skip_minus-Follows : (l : Lexer) → IsValid l → Follows l (skip_minus l)
unfolding skip_minus
skip_minus-Follows l v = Follows-if (l.ch == b'-') l (read_char l) v (read_char-Follows l v)

pub skip_fraction-Follows : (l : Lexer) → IsValid l → Follows l (skip_fraction l)
unfolding skip_fraction
skip_fraction-Follows l v =
    let step = read_char-Follows l v in
    Follows-if (l.ch == b'.' && is_digit (peek_char l)) l _ v
      (Follows-trans step (skip_digits-Follows (read_char l) step.valid))

skip_escape-Follows : (l : Lexer) → IsValid l → Follows l (skip_escape l)
unfolding skip_escape
skip_escape-Follows l v =
    Follows-if (l.ch == b'\\' && peek_char l == b'\'') l _ v (read_char-Follows l v)

skip_quote-Follows : (l : Lexer) → IsValid l → Follows l (skip_quote l)
unfolding skip_quote
skip_quote-Follows l v = Follows-if (l.ch == b'\'') l _ v (read_char-Follows l v)

string_body-Follows : (fuel : ℕ) (l : Lexer) → IsValid l → Follows l (string_body fuel l)
unfolding string_body
string_body-Follows zero l v = Follows-refl l v
string_body-Follows (suc fuel) l v = elim (Bool-cases (l.ch == b'\'' || l.ch == 0)) [
  | inl done ↦ rw (done, string_body) (Follows-refl l v)
  | inr more ↦
      let escape = skip_escape-Follows l v in
      let step = read_char-Follows (skip_escape l) escape.valid in
      rw (more, string_body)
        (Follows-trans escape
          (Follows-trans step (string_body-Follows fuel (read_char (skip_escape l)) step.valid)))
]

read_number-Follows : (l : Lexer) → IsValid l → Follows l (read_number l).1
unfolding read_number
read_number-Follows l v =
    let minus = skip_minus-Follows l v in
    let whole = skip_digits-Follows (skip_minus l) minus.valid in
    Follows-trans minus (Follows-trans whole (skip_fraction-Follows _ whole.valid))

pub read_string-Follows : (l : Lexer) → IsValid l → Follows (read_char l) (read_string l).1
unfolding read_string
read_string-Follows l v =
    let opening = read_char-Follows l v in
    let body = string_body-Follows (enough (read_char l)) (read_char l) opening.valid in
    Follows-trans body (skip_quote-Follows _ body.valid)
