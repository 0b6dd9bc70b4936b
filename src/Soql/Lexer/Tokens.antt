-- ===== src/Soql/Lexer/Tokens.antt =====
-- The lexer from token to token (internal/soql/lexer.go).
use mock_salesforce.Base.{
  ℕ, ◌<◌, ◌≡◌, refl, ap, inl, inr, Bool, true, false, ◌||◌, ◌&&◌, Bytes, arith, length, Bool-cases,
  ◌==◌, if◌then◌else◌,
}
use mock_salesforce.Soql.Token.{TokenType, Token, same_type, eof}
use mock_salesforce.Soql.Lexer.{
  Lexer, read_char, peek_char, is_letter, is_digit, is_ident_byte, enough, skip_whitespace,
  read_identifier, skip_digits, skip_minus, read_number, read_string, single, double, scanned,
  scanned_word, other_token, scan, next_token,
}
use mock_salesforce.Soql.Lexer.Progress.{
  IsValid, Follows, Follows-trans, inside, read_char-Follows, pos-read_char, advance_while-Follows,
  advance_while-moves, skip_whitespace-Follows, skip_digits-Follows, skip_minus-Follows,
  skip_fraction-Follows, read_string-Follows,
}

-- A token that was read from `l`, with the lexer behind it.
pub record Moves (l : Lexer) (r : Token × Lexer) : Type 0 where
  pub follows : Follows l r.1
  pub moved : same_type r.0.type eof ≡ false → (l.pos < r.1.pos) × (l.pos < length l.input)

Moves-if :
    {l : Lexer} (b : Bool) {x y : Token × Lexer}
    → (b ≡ true → Moves l x)
    → (b ≡ false → Moves l y)
    → Moves l (if b then x else y)
Moves-if true hx hy = hx refl
Moves-if false hx hy = hy refl

-- A lexer that moved from a byte that is there.
Moves-of :
    {l l' : Lexer} {t : Token}
    → IsValid l
    → (l.ch == 0) ≡ false
    → Follows l l'
    → l.pos < l'.pos
    → Moves l (t, l')
Moves-of {l} v h f m = record { follows = f; moved = λ _. (m, inside l v h) }

module _ (l : Lexer) (v : IsValid l) where
  single-Moves : (t : TokenType) (s : Bytes) → (l.ch == 0) ≡ false → Moves l (single l t s)
  unfolding single
  single-Moves t s h = Moves-of v h (read_char-Follows l v) (omega (arith, pos-read_char l v))

  double-Moves : (t : TokenType) (s : Bytes) → (l.ch == 0) ≡ false → Moves l (double l t s)
  unfolding double
  double-Moves t s h =
      let one = read_char-Follows l v in
      let two = read_char-Follows (read_char l) one.valid in
      Moves-of v h (Follows-trans one two) (omega (arith, pos-read_char l v, two.forward))

  eof-Moves : (s : Bytes) → Moves l (single l eof s)
  unfolding single same_type
  eof-Moves s = record { follows = read_char-Follows l v; moved = λ h. cc }

  string-Moves : (t : TokenType) → (l.ch == 0) ≡ false → Moves l (scanned t l.pos (read_string l))
  unfolding scanned
  string-Moves t h =
      let body = read_string-Follows l v in
      Moves-of v h (Follows-trans (read_char-Follows l v) body)
        (omega (arith, pos-read_char l v, body.forward))

  word-Moves :
      is_ident_byte l.ch ≡ true
      → (l.ch == 0) ≡ false
      → Moves l (scanned_word l.pos (read_identifier l))
  unfolding scanned_word read_identifier
  word-Moves w h =
      Moves-of v h (advance_while-Follows is_ident_byte (enough l) l v)
        (advance_while-moves is_ident_byte _ l w v)

  digits-move : is_digit l.ch ≡ true → l.pos < (skip_digits l).pos
  unfolding skip_digits
  digits-move d = advance_while-moves is_digit _ l d v

starts_ident : (c : ℕ) → (is_letter c || c == b'_') ≡ true → is_ident_byte c ≡ true
unfolding is_ident_byte is_letter is_digit
starts_ident c w = ground arith

module _ (l : Lexer) (v : IsValid l) where
  not_minus : is_digit l.ch ≡ true → skip_minus l ≡ l
  unfolding skip_minus is_digit
  not_minus d = ground arith

  minus : (l.ch == b'-') ≡ true → skip_minus l ≡ read_char l
  unfolding skip_minus
  minus d = rw d

  -- Behind the sign and the digits of a number.
  whole-moves :
      (is_digit l.ch || l.ch == b'-' && is_digit (peek_char l)) ≡ true
      → l.pos < (skip_digits (skip_minus l)).pos
  whole-moves h = elim (Bool-cases (is_digit l.ch)) [
    | inl d ↦ rw (not_minus d) (digits-move l v d)
    | inr d ↦
        let sign : (l.ch == b'-') ≡ true = ground arith in
        let one = read_char-Follows l v in
        rw (minus sign)
          (omega (arith, (skip_digits-Follows (read_char l) one.valid).forward, pos-read_char l v))
  ]

  number-Moves :
      (t : TokenType)
      → (is_digit l.ch || l.ch == b'-' && is_digit (peek_char l)) ≡ true
      → (l.ch == 0) ≡ false
      → Moves l (scanned t l.pos (read_number l))
  unfolding scanned read_number
  number-Moves t d h =
      let sign = skip_minus-Follows l v in
      let digits = skip_digits-Follows (skip_minus l) sign.valid in
      let fraction = skip_fraction-Follows _ digits.valid in
      Moves-of v h (Follows-trans sign (Follows-trans digits fraction))
        (omega (arith, whole-moves d, fraction.forward))

  other_token-Moves : (l.ch == 0) ≡ false → Moves l (other_token l)
  unfolding other_token
  other_token-Moves h =
      Moves-if (is_letter l.ch || l.ch == b'_') (λ w. word-Moves l v (starts_ident l.ch w) h)
        λ _.
          Moves-if (is_digit l.ch || l.ch == b'-' && is_digit (peek_char l))
            (λ d. number-Moves _ d h) (λ _. single-Moves l v _ _ h)

  not_null : (k : ℕ) → (k == 0) ≡ false → (l.ch == k) ≡ true → (l.ch == 0) ≡ false
  not_null k z e = ground arith

  pub scan-Moves : Moves l (scan l)
  unfolding scan
  scan-Moves =
      Moves-if (l.ch == b'=') (λ e. single-Moves l v _ _ (not_null b'=' refl e))
        λ _.
          Moves-if (l.ch == b'!')
            (λ e.
              Moves-if (peek_char l == b'=') (λ _. double-Moves l v _ _ (not_null b'!' refl e))
                (λ _. single-Moves l v _ _ (not_null b'!' refl e)))
            λ _.
              Moves-if (l.ch == b'<')
                (λ e.
                  Moves-if (peek_char l == b'=') (λ _. double-Moves l v _ _ (not_null b'<' refl e))
                    λ _.
                      Moves-if (peek_char l == b'>')
                        (λ _. double-Moves l v _ _ (not_null b'<' refl e))
                        (λ _. single-Moves l v _ _ (not_null b'<' refl e)))
                λ _.
                  Moves-if (l.ch == b'>')
                    (λ e.
                      Moves-if (peek_char l == b'=')
                        (λ _. double-Moves l v _ _ (not_null b'>' refl e))
                        (λ _. single-Moves l v _ _ (not_null b'>' refl e)))
                    λ _.
                      Moves-if (l.ch == b',') (λ e. single-Moves l v _ _ (not_null b',' refl e))
                        λ _.
                          Moves-if (l.ch == b'.') (λ e. single-Moves l v _ _ (not_null b'.' refl e))
                            λ _.
                              Moves-if (l.ch == b':')
                                (λ e. single-Moves l v _ _ (not_null b':' refl e))
                                λ _.
                                  Moves-if (l.ch == b'(')
                                    (λ e. single-Moves l v _ _ (not_null b'(' refl e))
                                    λ _.
                                      Moves-if (l.ch == b')')
                                        (λ e. single-Moves l v _ _ (not_null b')' refl e))
                                        λ _.
                                          Moves-if (l.ch == b'\'')
                                            (λ e. string-Moves l v _ (not_null b'\'' refl e))
                                            λ _.
                                              Moves-if (l.ch == 0) (λ _. eof-Moves l v _)
                                                λ h. other_token-Moves h

-- `NextToken` keeps the input and never goes back; a token other than EOF ends behind the place
-- where the lexer stood, which was before the end of the input.
pub next_token-Moves : (l : Lexer) → IsValid l → Moves l (next_token l)
unfolding next_token
next_token-Moves l v =
    let skip = skip_whitespace-Follows l v in
    let read = scan-Moves (skip_whitespace l) skip.valid in
    record {
      follows = Follows-trans skip read.follows;
      moved = λ h.
          let (m, i) = read.moved h in
          (
            omega (arith, skip.forward),
            omega (arith, skip.forward, skip.same, ap length skip.same),
          );
    }
