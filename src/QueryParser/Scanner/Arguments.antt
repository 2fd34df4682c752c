-- ===== src/QueryParser/Scanner/Arguments.antt =====
-- The arguments of a {fn ...} escape: `collect_function_arguments` of src/query_parser.c.
-- The step for what stands inside the arguments is the argument `scan`; `none` is what spent fuel
-- gives.
use psqlodbc_new.Prelude.{
  ℕ, zero, suc, ◌-◌, Bool, true, false, not, ◌&&◌, ◌||◌, Option, none, some, List, [], ◌∷◌, ◌++◌,
  leb, ◌==◌, if◌then◌else◌, length, Bytes,
}
use psqlodbc_new.QueryParser.{ScanState, normal}
use psqlodbc_new.QueryParser.Scanner.{Setting, Scanner, at_input, append_reversed}
use psqlodbc_new.QueryParser.Scanner.Copy.{copy_one}

abbrev pub is_normal : ScanState → Bool
is_normal normal = true
is_normal _ = false

abbrev pub Scan : Type 0
Scan = Scanner → Option Scanner

infixl 5 ◌>>=◌
abbrev pub ◌>>=◌ : Option Scanner → Scan → Option Scanner
none >>= f = none
some s >>= f = f s

-- Where the arguments of a function are collected: the texts so far, the depth of parentheses
-- beyond the call's own, and whether the current argument has any content.
pub record Collecting : Type 0 where
  pub scanner : Scanner
  pub argument_texts : List Bytes
  pub depth : ℕ
  pub argument_has_content : Bool

-- The end of the collection: the scanner with its output restored, and the arguments, or `none` for
-- the result -1.
abbrev pub Collected : Type 0
Collected = Scanner × Option (List Bytes)

abbrev pub max_fn_arguments : ℕ
max_fn_arguments = 16

abbrev pub argument_buffer : ℕ
argument_buffer = 64

-- What stands at a byte inside the arguments.
pub data ArgumentByte : Type 0 where
  opens closes_inner closes_outer separates other : ArgumentByte

abbrev pub argument_byte : Bool → ℕ → ℕ → ArgumentByte
argument_byte in_normal depth x =
    if not in_normal
    then other
    else if x == b'('
    then opens
    else if x == b')'
    then if depth == 0 then closes_outer else closes_inner
    else if x == b',' && depth == 0
    then separates
    else other

module _ (c : Setting) (scan : Scan) where
  -- The argument that ends here is stored, where there is room for it, and the next one gets a
  -- buffer.
  abbrev restored : Scanner → Scanner → Scanner
  restored saved s = record s { output = saved.output; output_capacity = saved.output_capacity }

  abbrev pub failed : Scanner → Scanner → Collected
  failed saved s = (restored saved s, none)

  abbrev pub fresh : Scanner → Scanner
  fresh s = record s { output = []; output_capacity = argument_buffer }

  abbrev argument_text : Scanner → Bytes
  argument_text s = append_reversed s.output []

  abbrev pub with_scanner : Collecting → Scanner → Collecting
  with_scanner st s = record st { scanner = s }

  abbrev pub finish_arguments : Scanner → Collecting → Collected
  finish_arguments saved st =
      if st.scanner.out_of_memory || leb max_fn_arguments (length st.argument_texts)
      then failed saved st.scanner
      else (
        restored saved st.scanner,
        some (
            if length st.argument_texts == 0 && not st.argument_has_content
            then []
            else st.argument_texts ++ argument_text st.scanner ∷ []),
      )

  -- The text behind a comma goes to a new argument.
  abbrev pub next_argument : Collecting → Bytes → Collecting
  next_argument st xs = record {
    scanner = fresh (at_input st.scanner xs);
    argument_texts = st.argument_texts ++ argument_text st.scanner ∷ [];
    depth = 0;
    argument_has_content = false;
  }

  abbrev pub note_content : Collecting → ℕ → Collecting
  note_content st x =
      if is_normal st.scanner.state && not (x == b' ' || x == b'\t')
      then record st { argument_has_content = true }
      else st

  -- A comma: the text behind it goes to a new argument, where there is room for one.
  abbrev pub at_separator :
      (Collecting → Option Collected) → Scanner → Collecting → Bytes → Option Collected
  at_separator more saved st xs = elim (leb max_fn_arguments (length st.argument_texts)) [
    | true ↦ some (failed saved st.scanner)
    | false ↦ elim (c.allocates argument_buffer) [
      | true ↦ more (next_argument st xs)
      | false ↦ some (failed saved (record st.scanner { out_of_memory = true }))
    ]
  ]

  abbrev pub after_scan :
      (Collecting → Option Collected) → Collecting → Option Scanner → Option Collected
  after_scan more st none = none
  after_scan more st (some s) = more (with_scanner st s)

  -- One round, with the loop `more` for the rest.
  abbrev pub collect_at :
      (Collecting → Option Collected)
      → Scanner
      → Collecting
      → ArgumentByte
      → ℕ
      → Bytes
      → Option Collected
  collect_at more saved st opens x xs =
      more (record (with_scanner st (copy_one c st.scanner x xs)) { depth = suc st.depth })
  collect_at more saved st closes_inner x xs =
      more (record (with_scanner st (copy_one c st.scanner x xs)) { depth = st.depth - 1 })
  collect_at more saved st closes_outer x xs =
      some (finish_arguments saved (with_scanner st (at_input st.scanner xs)))
  collect_at more saved st separates x xs = at_separator more saved st xs
  collect_at more saved st other x xs = after_scan more (note_content st x) (scan st.scanner)

  abbrev pub collect_round :
      (Collecting → Option Collected) → Scanner → Collecting → Bytes → Option Collected
  collect_round more saved st [] = some (finish_arguments saved st)
  collect_round more saved st (x ∷ xs) =
      collect_at more saved st (argument_byte (is_normal st.scanner.state) st.depth x) x xs

  -- The loop, on fuel.
  unfoldable pub collect_loop : ℕ → Scanner → Collecting → Option Collected
  collect_loop zero saved st = none
  collect_loop (suc fuel) saved st = elim st.scanner.out_of_memory [
    | true ↦ some (finish_arguments saved st)
    | false ↦ collect_round (collect_loop fuel saved) saved st st.scanner.input
  ]

  -- From behind the `(`.
  unfoldable pub collect_function_arguments : ℕ → Scanner → Option Collected
  unfolding collect_loop
  collect_function_arguments fuel s = elim (c.allocates argument_buffer) [
    | false ↦ some (failed s (record s { out_of_memory = true }))
    | true ↦
        collect_loop fuel s (record {
          scanner = fresh s;
          argument_texts = [];
          depth = 0;
          argument_has_content = false;
        })
  ]
