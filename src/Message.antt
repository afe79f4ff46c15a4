-- ===== src/Message.antt =====
-- The messages of exceptions, src/error/G2FException.cpp: the tokenizer, the conditional blocks and the
-- placeholders. A text is the list of its bytes; what undefined behaviour gives is `none`.
pub mod Laws
use mathlib.Core.Option
use gd2fuse.Base.{
  ℕ, zero, suc, ◌+◌, ◌-◌, ◌*◌, ◌^◌, Bool, true, false, not, ◌&&◌, Option, none, some, List, [], ◌∷◌,
  ◌++◌, ◌==◌, nat_eq, if◌then◌else◌, leb, ltb, length, get_elem?,
}

abbrev pub Text : Type 0
Text = List ℕ

pub data TokenType : Type 0 where
  open_token close_token next_block symbol : TokenType

abbrev pub open_char : ℕ
open_char = 123

abbrev pub close_char : ℕ
close_char = 125

abbrev pub block_char : ℕ
block_char = 124

abbrev pub percent : ℕ
percent = 37

-- The `switch` over a character, which leaves `firstStep` alone for any other one.
unfoldable pub step : TokenType → ℕ → TokenType
step first c =
    if c == open_char
    then open_token
    else if c == close_char
    then close_token
    else if c == block_char
    then next_block
    else first

abbrev pub same : TokenType → TokenType → Bool
same open_token open_token = true
same close_token close_token = true
same next_block next_block = true
same symbol symbol = true
same _ _ = false

-- The type of the token at a character, by the characters behind it: at a control character the next
-- one is looked at, with the `firstStep` of the first. A token is one character long.
unfoldable pub token_type : ℕ → Text → TokenType
unfolding step
token_type c rest =
    let first = step symbol c in
    elim rest [
      | [] ↦ first
      | d ∷ _ ↦
          if same first symbol then symbol else if same (step first d) first then symbol else first
    ]

abbrev pub is_digit : ℕ → Bool
is_digit c = leb 48 c && leb c 57

-- `find_if_not` over the digits
unfoldable pub span_digits : Text → Text × Text
span_digits [] = ([], [])
span_digits (c ∷ rest) =
    let (ds, after) = span_digits rest in if is_digit c then (c ∷ ds, after) else ([], c ∷ rest)

abbrev pub number : ℕ → Text → ℕ
number n [] = n
number n (d ∷ ds) = number (n * 10 + (d - 48)) ds

-- try_lexical_convert to size_t, and that the value is not 0
abbrev pub is_placeholder : Text → Bool
is_placeholder [] = false
is_placeholder (d ∷ ds) = let n = number 0 (d ∷ ds) in ltb 0 n && ltb n (2 ^ 64)

-- The placeholders that are found one after the other, as a text cut at them; `past_end` is an
-- iterator that has stepped behind the end of the text.
pub data Piece : Type 0 where
  char : ℕ → Piece
  placeholder : ℕ → Piece
  past_end : Piece

abbrev pub chars : Text → List Piece
chars [] = []
chars (c ∷ cs) = char c ∷ chars cs

-- PlaceholderFinder, applied again behind each match. After digits that are no placeholder it steps
-- over one more character.
unfoldable pub pieces : ℕ → Text → List Piece
unfolding span_digits
pieces zero text = past_end ∷ []
pieces (suc k) [] = []
pieces (suc k) (c ∷ rest) = elim (c == percent) [
  | false ↦ char c ∷ pieces k rest
  | true ↦
      let (digits, after) = span_digits rest in
      elim digits [
        | [] ↦ char c ∷ pieces k rest
        | d ∷ ds ↦ elim (is_placeholder (d ∷ ds)) [
          | true ↦ placeholder (number 0 (d ∷ ds)) ∷ pieces k after
          | false ↦ elim after [
            | [] ↦ past_end ∷ []
            | x ∷ xs ↦ char c ∷ chars (d ∷ ds) ++ char x ∷ pieces k xs
          ]
        ]
      ]
]

-- `args[pf.value-1]` for each placeholder
unfoldable pub fill : List Text → List Piece → Option Text
fill args [] = some []
fill args (char c ∷ ps) = Option.map (λ t. c ∷ t) (fill args ps)
fill args (placeholder n ∷ ps) = elim (get_elem? args (n - 1)) [
  | none ↦ none
  | some a ↦ Option.map (λ t. a ++ t) (fill args ps)
]
fill args (past_end ∷ ps) = none

all_given : ℕ → List Piece → Option Bool
all_given n [] = some true
all_given n (char _ ∷ ps) = all_given n ps
all_given n (placeholder k ∷ ps) = let rest = all_given n ps in if leb n k then some false else rest
all_given n (past_end ∷ ps) = none

-- _isAcceptBlock
unfoldable pub is_accept_block : Text → List Text → Option Bool
unfolding pieces all_given
is_accept_block block args = all_given (length args) (pieces (suc (length block)) block)

pub data State : Type 0 where
  out_of_condition inside_condition skip_to_end : State

-- A token inside of a condition falls through to the case of the skipping state.
abbrev after_close : TokenType → State → State
after_close close_token s = out_of_condition
after_close _ s = s

abbrev ends_block : TokenType → Bool
ends_block next_block = true
ends_block close_token = true
ends_block _ = false

-- The loop of _compileMessage: the state, the block so far and the tokens that are left.
unfoldable pub blocks : List Text → State → Text → Text → Option Text
unfolding token_type is_accept_block
blocks args state block [] = some []
blocks args out_of_condition block (c ∷ rest) = elim (same (token_type c rest) open_token) [
  | true ↦ blocks args inside_condition block rest
  | false ↦ Option.map (λ t. c ∷ t) (blocks args out_of_condition block rest)
]
blocks args inside_condition block (c ∷ rest) = elim (ends_block (token_type c rest)) [
  | false ↦ blocks args inside_condition (block ++ c ∷ []) rest
  | true ↦ elim (is_accept_block block args) [
    | none ↦ none
    | some true ↦
        Option.map (λ t. block ++ t)
          (blocks args (after_close (token_type c rest) skip_to_end) [] rest)
    | some false ↦ blocks args (after_close (token_type c rest) inside_condition) [] rest
  ]
]
blocks args skip_to_end block (c ∷ rest) =
    blocks args (after_close (token_type c rest) skip_to_end) block rest

-- _compileMessage
unfoldable pub compile_message : Text → List Text → Option Text
unfolding blocks pieces fill
compile_message message args = elim (blocks args out_of_condition [] message) [
  | none ↦ none
  | some ret ↦ fill args (pieces (suc (length ret)) ret)
]
