-- ===== src/Line/ReadExamples.antt =====
-- The theorems on the parser of src/xnet/xline.h at a concrete object and a concrete list.
use wenas.Base.{
  ◌^◌, ◌<◌, ◌≡◌, refl, List, [], ◌∷◌, ◌++◌, none, out_of_fuel, Yields, length, replicate, arith,
}
use wenas.Line.{n2b}
use wenas.Line.Value.{Value, encode, encode_key, encode_fields}
use wenas.Line.Parser.{Parser, find, find_number, find_word, list_next, next}
use wenas.Line.Parser.Scan.{lookup, Shows}
use wenas.Line.Parser.Find.{Reads, find-Reads}
use wenas.Line.Parser.Next.{Nexts, next-Nexts}
use wenas.Line.Parser.Words.{Points, find_word_lem}
use wenas.Line.Parser.Items.{encode_items, Walks, Item, list_next-Item}
use wenas.Line.Parser.Limits.{find-long_key, find_until-forever, loop_entry}
use wenas.Line.Parser.{find_until}
use wenas.Line.RoundTrip.{bits_found, find_number_lem}
use wenas.Line.Examples.{grown_frame, entries, key_a, key_b}

-- The parser of the object above.
abbrev reader : Parser
reader = record { rpos = 0; wpos = 26; key = 0; val = none; body = grown_frame.buf }

reader-Reads : Reads entries (replicate 35 0) reader
unfolding encode_fields encode encode_key n2b
reader-Reads = record {
  passed = [];
  ahead = entries;
  split = refl;
  stands = record { body_is = refl; place = refl; bytes = refl };
  end = refl;
}

entries_small : length (encode_fields entries) < 2 ^ 64
unfolding encode_fields encode encode_key n2b
entries_small = omega arith

find-Reads_example :
    Yields
      (λ q.
        Reads entries (replicate 35 0) q
        × Shows q.body q.val (lookup key_b (reader-Reads.ahead ++ reader-Reads.passed)))
      (find 3 reader key_b)
find-Reads_example =
    find-Reads entries (replicate 35 0) 3 reader key_b reader-Reads (omega arith) entries_small
      (omega arith)

find_number_lem_example :
    Yields
      (λ x.
        (x.0 ≡ bits_found (lookup key_a (reader-Reads.ahead ++ reader-Reads.passed)))
        × Reads entries (replicate 35 0) x.1)
      (find_number 3 reader key_a)
find_number_lem_example =
    find_number_lem entries (replicate 35 0) 3 reader key_a reader-Reads (omega arith) entries_small
      (omega arith)

find_word_lem_example :
    Yields
      (λ x.
        Points x.1.body x.0 (lookup key_b (reader-Reads.ahead ++ reader-Reads.passed))
        × Reads entries (replicate 35 0) x.1)
      (find_word 3 reader key_b)
find_word_lem_example =
    find_word_lem entries (replicate 35 0) 3 reader key_b reader-Reads (omega arith) entries_small
      (omega arith)

next-Nexts_example :
    Yields (Nexts entries (replicate 35 0) reader-Reads.passed reader-Reads.ahead) (next reader)
next-Nexts_example =
    next-Nexts entries (replicate 35 0) reader reader-Reads (omega arith) entries_small

find-long_key_example : Yields (λ q. q.val ≡ none) (find 3 reader (replicate 65 b'k'))
find-long_key_example =
    find-long_key entries (replicate 35 0) 3 reader (replicate 65 b'k') reader-Reads (omega arith)
      entries_small (omega arith) (omega arith)

find_until-forever_example :
    find_until 5 20 key_a
      (record { rpos = 0; wpos = 20; key = 0; val = none; body = loop_entry ++ [] })
    ≡ out_of_fuel
find_until-forever_example =
    find_until-forever 5 20 key_a
      (record { rpos = 0; wpos = 20; key = 0; val = none; body = loop_entry ++ [] }) []
      (omega arith) (omega arith) refl

-- A list of two items, and its parser in front of them.
abbrev items : List Value
items = Value.uint 7 ∷ Value.str (b'x' ∷ 0 ∷ []) ∷ []

abbrev walker : Parser
walker = record { rpos = 0; wpos = 20; key = 0; val = none; body = encode_items items ++ 99 ∷ [] }

walker-Walks : Walks items (99 ∷ []) walker
unfolding encode n2b
walker-Walks = record {
  passed = [];
  ahead = items;
  split = refl;
  place = refl;
  bytes = refl;
  end = refl;
}

items_small : length (encode_items items) < 2 ^ 64
unfolding encode n2b
items_small = omega arith

list_next-Item_example :
    Yields (Item items (99 ∷ []) walker-Walks.passed walker-Walks.ahead) (list_next walker)
list_next-Item_example =
    list_next-Item items (99 ∷ []) walker walker-Walks (omega arith) items_small
