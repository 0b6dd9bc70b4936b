-- ===== src/Soql/Parser/Measure.antt =====
-- What is left to read, and the parser's steps against its fuel (internal/soql/parser.go).
use mock_salesforce.Base.{
  ℕ, zero, suc, ◌+◌, ◌-◌, ◌≤◌, ◌<◌, ◌≡◌, refl, ap, ◌≢◌, Bool, true, false, arith, length, Bytes,
  if◌then◌else◌,
}
use mock_salesforce.Soql.Token.{TokenType, Token, same_type, eof, comma}
use mock_salesforce.Soql.Lexer.Progress.{IsValid, new_lexer-IsValid}
use mock_salesforce.Soql.Lexer.Tokens.{next_token-Moves}
use mock_salesforce.Soql.Parser.State.{
  Parser, Parse, ParseError, Result, ok, err, out_of_fuel, bind, pure, fail, ◌>>=◌, ◌>>◌,
  next_token, unread, new_parser, advance, current, cur_token_is, peek_token_is, expect, when,
  fuel_for, comma_separated, comma_list,
}
use Prim.Native.String.{String}

abbrev pub IsReady : Parser → Type 0
IsReady p = IsValid p.lexer

-- A token counts unless it is EOF.
abbrev pub weight : Token → ℕ
weight t = if same_type t.type eof then 0 else 1

-- The bytes that the lexer has not reached, and the two tokens held.
pub size : Parser → ℕ
size p = length p.lexer.input - p.lexer.pos + weight p.cur_token + weight p.peek_token

pub record Steps (p q : Parser) : Type 0 where
  pub ready : IsReady q
  pub smaller : size q + weight p.cur_token ≤ size p

pub next_token-Steps : (p : Parser) → IsReady p → Steps p (next_token p)
unfolding next_token size
next_token-Steps p v =
    let read = next_token-Moves p.lexer v in
    record {
      ready = read.follows.valid;
      smaller = ground (arith, read.moved, read.follows.forward, ap length read.follows.same);
    }

-- The run kept within its fuel; it failed, or left a parser with at most `n` to read.
pub data Within {ℓ} {A : Type ℓ} (n : ℕ) : Result (A × Parser) → Type ℓ where
  within : {a : A} {q : Parser} → IsReady q → size q ≤ n → Within n (ok (a, q))
  refused : {e : ParseError} → Within n (err e)

module _ {ℓ} {A : Type ℓ} where
  pub Within-le : {m n : ℕ} {r : Result (A × Parser)} → Within m r → m ≤ n → Within n r
  Within-le (within v h) le = within v (omega arith)
  Within-le refused le = refused

  pub Within-ne : {n : ℕ} {r : Result (A × Parser)} → Within n r → r ≢ out_of_fuel
  Within-ne (within v h) = cc
  Within-ne refused = cc

  pub Within-if :
      {n : ℕ} (b : Bool) {x y : Result (A × Parser)}
      → (b ≡ true → Within n x)
      → (b ≡ false → Within n y)
      → Within n (if b then x else y)
  Within-if true hx hy = hx refl
  Within-if false hx hy = hy refl

  pub Within-bind {κ} :
      {B : Type κ} {m n : ℕ} {r : Result (A × Parser)} (f : A × Parser → Result (B × Parser))
      → Within m r
      → ((a : A) (q : Parser) → IsReady q → size q ≤ m → Within n (f (a, q)))
      → Within n (bind r f)
  Within-bind f (within {a} {q} v h) k = k a q v h
  Within-bind f refused k = refused

-- From any parser over a valid lexer, `m` ends, and reads forward.
pub record Total {ℓ} {A : Type ℓ} (m : Parse A) : Type ℓ where
  pub at : (p : Parser) → IsReady p → Within (size p) (m p)

module _ {ℓ} {A : Type ℓ} where
  pub Total-pure : (a : A) → Total (pure a)
  unfolding pure
  Total-pure a = record { at = λ p v. within v (omega arith) }

  pub Total-fail : (e : ParseError) → Total (fail {A = A} e)
  unfolding fail
  Total-fail e = record { at = λ p v. refused }

  pub Total-if : (b : Bool) (m n : Parse A) → Total m → Total n → Total (if b then m else n)
  Total-if true m n hm hn = hm
  Total-if false m n hm hn = hn

  pub Total-bind {κ} :
      {B : Type κ} (m : Parse A) (f : A → Parse B)
      → Total m
      → ((a : A) → Total (f a))
      → Total (m >>= f)
  unfolding ◌>>=◌
  Total-bind m f hm hf = record {
    at = λ p v. Within-bind _ (hm.at p v) λ a q w h. Within-le ((hf a).at q w) h;
  }

  pub Total-then {κ} : {B : Type κ} (m : Parse A) (n : Parse B) → Total m → Total n → Total (m >> n)
  Total-then m n hm hn = Total-bind m (λ _. n) hm (λ _. hn)

  pub Total-when : (t : TokenType) (m n : Parse A) → Total m → Total n → Total (when t m n)
  unfolding when
  Total-when t m n hm hn = record {
    at = λ p v.
        Within-if (same_type p.cur_token.type t)
          (λ _.
            let s = next_token-Steps p v in
            Within-le (hm.at (next_token p) s.ready) (omega (arith, s.smaller)))
          (λ _. hn.at p v);
  }

pub Total-advance : Total advance
unfolding advance
Total-advance = record {
  at = λ p v. let s = next_token-Steps p v in within s.ready (omega (arith, s.smaller));
}

pub Total-current : Total current
unfolding current
Total-current = record { at = λ p v. within v (omega arith) }

pub Total-cur_token_is : (t : TokenType) → Total (cur_token_is t)
unfolding cur_token_is
Total-cur_token_is t = record { at = λ p v. within v (omega arith) }

pub Total-peek_token_is : (t : TokenType) → Total (peek_token_is t)
unfolding peek_token_is
Total-peek_token_is t = record { at = λ p v. within v (omega arith) }

pub Total-expect : (t : TokenType) (what : String) → Total (expect t what)
unfolding expect
Total-expect t what = record {
  at = λ p v. Within-if (same_type p.cur_token.type t) (λ _. within v (omega arith)) (λ _. refused);
}

-- A token of a type other than EOF counts.
pub weight_of :
    (t : Token) (k : TokenType) → same_type t.type k ≡ true → same_type k eof ≡ false → weight t ≡ 1
unfolding same_type
weight_of t k h e = ground arith

pub size-le-fuel_for : (p : Parser) → size p + size p + 2 ≤ fuel_for p
unfolding size fuel_for
size-le-fuel_for p = ground arith

module _ {ℓ} {A : Type ℓ} (item : Parse A) (each : Total item) where
  -- A comma is read on each round, so fuel above the size is enough.
  pub comma_separated-Within :
      (fuel : ℕ) (p : Parser)
      → IsReady p
      → size p < fuel
      → Within (size p) (comma_separated fuel item p)
  unfolding comma_separated
  comma_separated-Within zero p v h = absurd (omega arith)
  comma_separated-Within (suc fuel) p v h = Within-bind _ (each.at p v) λ x q w le.
      Within-if (same_type q.cur_token.type comma)
        (λ c.
          let s = next_token-Steps q w in
          let one = weight_of q.cur_token comma c (unfold same_type in refl) in
          Within-bind _
            (Within-le
              (comma_separated-Within fuel (next_token q) s.ready (omega (arith, s.smaller)))
              (omega (arith, s.smaller)))
            λ xs r u k. within u k)
        (λ _. within w le)

  pub Total-comma_list : Total (comma_list item)
  unfolding comma_list
  Total-comma_list = record {
    at = λ p v. comma_separated-Within (fuel_for p) p v (omega (arith, size-le-fuel_for p));
  }

pub ruleset total_rules = (
  Total-pure, Total-fail, Total-if, Total-bind, Total-then, Total-when, Total-advance,
  Total-current, Total-cur_token_is, Total-peek_token_is, Total-expect, Total-comma_list,
)

pub new_parser-IsReady : (s : Bytes) → IsReady (new_parser s)
unfolding new_parser
new_parser-IsReady s =
    let one = next_token-Steps (unread s) (new_lexer-IsValid s) in
    (next_token-Steps (next_token (unread s)) one.ready).ready
