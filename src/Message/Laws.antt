-- ===== src/Message/Laws.antt =====
-- _readNext, _isAcceptBlock and _compileMessage.
use mathlib.Core.Option
use gd2fuse.Base.{
  ℕ, zero, suc, ◌+◌, ◌-◌, ◌<◌, ◌≤◌, true, false, ◌≡◌, ◌≢◌, refl, ap, ◌∙◌, Option, none, some, List,
  [], ◌∷◌, ◌++◌, nat_eq, ltb, length, get_elem?, All, arith, length-append,
}
use gd2fuse.Message.{
  Text, TokenType, open_token, close_token, next_block, symbol, open_char, close_char, block_char,
  percent, step, same, token_type, is_digit, span_digits, is_placeholder, Piece, placeholder, chars,
  pieces, fill, all_given, is_accept_block, out_of_condition, blocks, compile_message,
}

-- No opening brace stands before another control character or at the end.
abbrev pub NoBlock : Text → Type 0
NoBlock [] = Unit
NoBlock (c ∷ rest) = (token_type c rest ≢ open_token) × NoBlock rest

same-open : (t : TokenType) → t ≢ open_token → same t open_token ≡ false
same-open open_token ne = absurd (ne refl)
same-open close_token ne = refl
same-open next_block ne = refl
same-open symbol ne = refl

blocks-NoBlock :
    (args : List Text) (text : Text)
    → NoBlock text
    → blocks args out_of_condition [] text ≡ some text
unfolding blocks
blocks-NoBlock args [] v = refl
blocks-NoBlock args (c ∷ rest) v =
    ground (arith, same-open (token_type c rest) v.0, blocks-NoBlock args rest v.1)

-- A control character with an ordinary character behind it is read as an ordinary symbol: an opening
-- brace opens a block only before another control character or at the end of the message.
pub token_type-ordinary :
    (c d : ℕ) (rest : Text)
    → d ≢ open_char
    → d ≢ close_char
    → d ≢ block_char
    → token_type c (d ∷ rest) ≡ symbol
unfolding token_type step
token_type-ordinary c d rest x y z = ground arith

-- A text without a percent sign.
abbrev pub IsPlain : Text → Type 0
IsPlain text = All (λ c. c ≢ percent) text

pieces-append :
    (pre : Text) (m k : ℕ) (text : Text)
    → IsPlain pre
    → m ≡ length pre + k
    → pieces m (pre ++ text) ≡ chars pre ++ pieces k text
unfolding pieces
pieces-append [] m k text v e = ap (λ n. pieces n text) (omega arith)
pieces-append (c ∷ pre) zero k text v e = absurd (omega arith)
pieces-append (c ∷ pre) (suc m) k text v e = ground (arith, v.0, pieces-append pre m k text v.1)

prepend-nil : (o : Option Text) → o ≡ Option.map (λ t. [] ++ t) o
prepend-nil none = refl
prepend-nil (some t) = refl

prepend-cons :
    (c : ℕ) (pre : Text) (o : Option Text)
    → Option.map (λ t. c ∷ t) (Option.map (λ t. pre ++ t) o) ≡ Option.map (λ t. (c ∷ pre) ++ t) o
prepend-cons c pre none = refl
prepend-cons c pre (some t) = refl

fill-chars :
    (args : List Text) (pre : Text) (ps : List Piece)
    → fill args (chars pre ++ ps) ≡ Option.map (λ t. pre ++ t) (fill args ps)
unfolding fill
fill-chars args [] ps = prepend-nil (fill args ps)
fill-chars args (c ∷ pre) ps =
    ap (Option.map (λ t. c ∷ t)) (fill-chars args pre ps) ∙ prepend-cons c pre (fill args ps)

-- A text does not start with a digit.
abbrev pub NoDigit : Text → Type 0
NoDigit [] = Unit
NoDigit (c ∷ _) = is_digit c ≡ false

span-none : (text : Text) → NoDigit text → span_digits text ≡ ([], text)
unfolding span_digits
span-none [] v = refl
span-none (c ∷ text) v = ground (arith, v)

span-one :
    (d : ℕ) (post : Text) → 48 < d → d ≤ 57 → NoDigit post → span_digits (d ∷ post) ≡ (d ∷ [], post)
unfolding span_digits
span-one d post low high v = ground (arith, span-none post v)

digit-is_placeholder : (d : ℕ) → 48 < d → d ≤ 57 → is_placeholder (d ∷ []) ≡ true
digit-is_placeholder d low high = ground arith

pieces-placeholder :
    (k d : ℕ) (post : Text)
    → 48 < d
    → d ≤ 57
    → NoDigit post
    → pieces (suc k) (percent ∷ d ∷ post) ≡ placeholder (d - 48) ∷ pieces k post
unfolding pieces nat_eq
pieces-placeholder k d post low high v =
    rw (span-one d post low high v, digit-is_placeholder d low high, pieces)
      (ap (λ n. placeholder n ∷ pieces k (span_digits (d ∷ post)).1) (omega arith)
        ∙ ap (λ (x : Text × Text). placeholder (d - 48) ∷ pieces k x.1)
            (span-one d post low high v))

pieces-plain : (post : Text) (m : ℕ) → IsPlain post → length post < m → pieces m post ≡ chars post
unfolding pieces
pieces-plain post zero v h = absurd (omega arith)
pieces-plain [] (suc m) v h = refl
pieces-plain (c ∷ post) (suc m) v h = ground (arith, v.0, pieces-plain post m v.1)

fill-plain : (args : List Text) (post : Text) → fill args (chars post) ≡ some post
unfolding fill
fill-plain args [] = refl
fill-plain args (c ∷ post) = rw (fill-plain args post)

fill-placeholder :
    (args : List Text) (pre post a : Text) (n : ℕ)
    → get_elem? args (n - 1) ≡ some a
    → fill args (chars pre ++ placeholder n ∷ chars post) ≡ some (pre ++ (a ++ post))
unfolding fill
fill-placeholder args pre post a n given =
    fill-chars args pre (placeholder n ∷ chars post) ∙ rw (given, fill-plain args post, fill) refl

message-pieces :
    (pre post : Text) (d : ℕ)
    → 48 < d
    → d ≤ 57
    → IsPlain pre
    → IsPlain post
    → NoDigit post
    → pieces (suc (length (pre ++ percent ∷ d ∷ post))) (pre ++ percent ∷ d ∷ post)
      ≡ chars pre ++ placeholder (d - 48) ∷ chars post
message-pieces pre post d low high v w n =
    pieces-append pre _ (suc (suc (suc (length post)))) (percent ∷ d ∷ post) v
      (omega (arith, length-append pre (percent ∷ d ∷ post)))
    ∙ ap (λ ps. chars pre ++ ps) (pieces-placeholder (suc (suc (length post))) d post low high n)
    ∙ ap (λ ps. chars pre ++ placeholder (d - 48) ∷ ps)
        (pieces-plain post (suc (suc (length post))) w (omega arith))

-- A message with the placeholder %1 to %9 and no other percent sign, in which no block opens, is the
-- message with that argument put in its place.
pub compile_message-placeholder :
    (pre post a : Text) (d : ℕ) (args : List Text)
    → 48 < d
    → d ≤ 57
    → NoBlock (pre ++ percent ∷ d ∷ post)
    → IsPlain pre
    → IsPlain post
    → NoDigit post
    → get_elem? args (d - 48 - 1) ≡ some a
    → compile_message (pre ++ percent ∷ d ∷ post) args ≡ some (pre ++ (a ++ post))
unfolding compile_message
compile_message-placeholder pre post a d args low high literal v w n given =
    rw (blocks-NoBlock args (pre ++ percent ∷ d ∷ post) literal, compile_message)
      (ap (fill args) (message-pieces pre post d low high v w n)
        ∙ fill-placeholder args pre post a (d - 48) given)

all_given-plain : (n : ℕ) (post : Text) → all_given n (chars post) ≡ some true
unfolding all_given
all_given-plain n [] = refl
all_given-plain n (c ∷ post) = all_given-plain n post

all_given-placeholder :
    (n k : ℕ) (pre post : Text)
    → all_given n (chars pre ++ placeholder k ∷ chars post) ≡ some (ltb k n)
unfolding all_given
all_given-placeholder n k [] post = ground (arith, all_given-plain n post)
all_given-placeholder n k (c ∷ pre) post = all_given-placeholder n k pre post

-- A block with one of the placeholders %1 to %9 and no other percent sign is accepted only if there
-- are more arguments than the placeholder's number: the last argument that is given does not count.
pub is_accept_block-placeholder :
    (pre post : Text) (d : ℕ) (args : List Text)
    → 48 < d
    → d ≤ 57
    → IsPlain pre
    → IsPlain post
    → NoDigit post
    → is_accept_block (pre ++ percent ∷ d ∷ post) args ≡ some (ltb (d - 48) (length args))
unfolding is_accept_block
is_accept_block-placeholder pre post d args low high v w n =
    ap (all_given (length args)) (message-pieces pre post d low high v w n)
    ∙ all_given-placeholder (length args) (d - 48) pre post
