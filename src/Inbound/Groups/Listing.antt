-- ===== src/Inbound/Groups/Listing.antt =====
-- LIST of lib/nntp/conn_v1.go.
use srndv.Base.{
  ℕ, zero, suc, ◌+◌, ◌/◌, ◌%◌, ◌≡◌, refl, ap, ◌∙◌, Option, none, some, List, [], ◌∷◌, ◌++◌, All,
  Bytes, codes, split, split-append, split_free, count_byte, count_byte-append, arith, decimal,
  decimal_onto,
}
use srndv.Nntp.Codes.{rpl_list}
use srndv.Inbound.{Answer, answer, failed, Database, Env, Conn, dot}
use srndv.Inbound.Commands.Transfer.{IsWritable, write_result-none}
use srndv.Inbound.Groups.{
  dot_lines, dot_write, stuff, group_line, list_entry, marks, list_entries, list_text,
  all_newsgroups, flush_lines, list_groups, newsgroup_list,
}

-- no newline in a text
abbrev pub IsOneLine : Bytes → Type 0
IsOneLine s = count_byte 10 s ≡ 0

decimal_onto-IsOneLine :
    (fuel n : ℕ) (acc : Bytes) → IsOneLine acc → IsOneLine (decimal_onto fuel n acc)
unfolding decimal_onto count_byte
decimal_onto-IsOneLine zero n acc h = h
decimal_onto-IsOneLine (suc fuel) n acc h =
    ground (arith, decimal_onto-IsOneLine fuel (n / 10) ((48 + n % 10) ∷ acc))

decimal-IsOneLine : (n : ℕ) → IsOneLine (decimal n)
unfolding decimal count_byte
decimal-IsOneLine n = decimal_onto-IsOneLine (suc n) n [] refl

group_line-IsOneLine : (g : Bytes) (hi lo : ℕ) → IsOneLine g → IsOneLine (group_line g hi lo)
unfolding group_line count_byte
group_line-IsOneLine g hi lo h = omega (
  arith,
  count_byte-append 10 g (32 ∷ (decimal hi ++ (32 ∷ (decimal lo ++ codes " y")))),
  count_byte-append 10 (decimal hi) (32 ∷ (decimal lo ++ codes " y")),
  count_byte-append 10 (decimal lo) (codes " y"),
  decimal-IsOneLine hi,
  decimal-IsOneLine lo,
)

list_entry-IsOneLine : (g : Bytes) (a : Answer (ℕ × ℕ)) → IsOneLine g → IsOneLine (list_entry g a)
unfolding list_entry count_byte
list_entry-IsOneLine g (answer (hi, lo)) h = group_line-IsOneLine g hi lo h
list_entry-IsOneLine g (failed e) h = refl

list_entries-IsOneLine :
    (db : Option Database) (gs : List Bytes) → All IsOneLine gs → IsOneLine (list_entries db gs)
unfolding list_entries count_byte
list_entries-IsOneLine db [] h = refl
list_entries-IsOneLine db (g ∷ gs) h = omega (
  arith,
  count_byte-append 10 (list_entry g (marks db g)) (list_entries db gs),
  list_entry-IsOneLine g (marks db g) h.0,
  list_entries-IsOneLine db gs h.1,
)

abbrev pub list_head : Bytes
list_head = rpl_list ++ codes " list of newsgroups follows"

-- the lines behind the first: none where nothing is listed, otherwise everything on one line
abbrev pub one_line : Bytes → List Bytes
one_line [] = []
one_line (c ∷ cs) = stuff (c ∷ cs) ∷ []

dot_lines-one : (s : Bytes) → dot_lines (s ∷ []) ≡ one_line s ++ dot ∷ []
unfolding dot_lines
dot_lines-one [] = refl
dot_lines-one (c ∷ cs) = refl

split-list_text :
    (db : Option Database) (gs : List Bytes)
    → All IsOneLine gs
    → split 10 (list_text db gs) ≡ list_head ∷ list_entries db gs ∷ []
unfolding list_text
split-list_text db gs h =
    split-append 10 list_head (list_entries db gs) (unfold count_byte in refl)
    ∙ ap (◌∷◌ list_head) (split_free 10 (list_entries db gs) (list_entries-IsOneLine db gs h))

module _ {S : Type 0} (env : Env S) where
  -- LIST on a socket that takes every line, where the newsgroups can be got and no name holds a
  -- newline: at most three lines are sent, however many groups there are. The entries of all groups
  -- stand on the one line between the first and the dot, with nothing between them.
  pub list_on_one_line :
      (c : Conn S) (line : Bytes) (groups : List Bytes)
      → IsWritable env c
      → all_newsgroups env.db ≡ answer groups
      → All IsOneLine groups
      → newsgroup_list env c line
        ≡ some (
          record c {
            writes = c.writes + 1;
            sent = c.sent ++ (list_head ∷ (one_line (list_entries env.db groups) ++ dot ∷ []));
          },
          none,
        )
  unfolding newsgroup_list list_groups flush_lines dot_write dot_lines stuff
  list_on_one_line c line groups w got one = rw got (
      rw (write_result-none env c w) (
        rw (split-list_text env.db groups one) (
          ap
            (λ ls.
              some (record c { writes = c.writes + 1; sent = c.sent ++ (list_head ∷ ls) }, none))
            (dot_lines-one (list_entries env.db groups)))))
