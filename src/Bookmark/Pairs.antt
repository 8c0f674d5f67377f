-- ===== src/Bookmark/Pairs.antt =====
-- The pairs of a bookmark, and what the state holds once they are read.
use istatd.Prelude.{
  ℕ, suc, ◌<◌, ◌≡◌, refl, sym, ap, ◌∙◌, arith, Option, none, some, List, [], ◌∷◌, ◌++◌, Text,
  text_eq, text_eq_instance, All, All-map, All-append, append_assoc,
}
use istatd.Prelude.Int.{ℤ, pos, negsuc}
use istatd.Prelude.Object.{Object, get, put}
use istatd.Prelude.Words.{codes, split, join}
use istatd.Prelude.Digits.{IsDigit, show, show_ℤ, show-ne_word, word-ne_show, show-IsDigit}
use istatd.Prelude.Escape.{escape, escape_unit, is_plain, unescape}
use istatd.Bookmark.{Func, state, state_of, item, items_of, query, read_pairs, func_of}
use istatd.Bookmark.Query.{
  IsUnits, IsPair, ArePairs, puts, puts-append, get-puts-other, get-put_self, escape-IsDigit,
  read_pairs-query, query-append,
}
use istatd.Bookmark.Items.{Holds, puts-state_of-Holds, puts-Holds, AreKept}

-- The pairs after those of the graphs.
abbrev pub tail_of : (graphs from to : Text) → List (Text × Text)
tail_of graphs from to = (codes "graphs", graphs) ∷ (codes "from", from) ∷ (codes "to", to) ∷ []

query-cons :
    (k v : Text) (pairs : List (Text × Text)) (t : Text)
    → query ((k, v) ∷ pairs) ++ t ≡ escape k ++ (b'=' ∷ (escape v ++ (b'&' ∷ (query pairs ++ t))))
unfolding query
query-cons k v pairs t =
    append_assoc (escape k ++ b'=' ∷ escape v) (b'&' ∷ query pairs) t
    ∙ append_assoc (escape k) (b'=' ∷ escape v) (b'&' ∷ (query pairs ++ t))

-- What is packed up is a query, and "state=".
pub query-tail_of :
    (pairs : List (Text × Text)) (graphs from to : Text)
    → query (pairs ++ (codes "graphs", graphs) ∷ [])
        ++ (codes "from=" ++ (escape from ++ (codes "&to=" ++ (escape to ++ codes "&state="))))
      ≡ query (pairs ++ tail_of graphs from to) ++ codes "state="
unfolding escape escape_unit is_plain query
query-tail_of pairs graphs from to = sym (
    ap (λ ps. query ps ++ codes "state=")
      (sym (
        append_assoc pairs ((codes "graphs", graphs) ∷ [])
          ((codes "from", from) ∷ (codes "to", to) ∷ [])))
    ∙ ap (λ t. t ++ codes "state=")
        (query-append (pairs ++ (codes "graphs", graphs) ∷ [])
          ((codes "from", from) ∷ (codes "to", to) ∷ []))
    ∙ append_assoc (query (pairs ++ (codes "graphs", graphs) ∷ [])) _ (codes "state=")
    ∙ ap (λ t. query (pairs ++ (codes "graphs", graphs) ∷ []) ++ t)
        (query-cons (codes "from") from ((codes "to", to) ∷ []) (codes "state=")
          ∙ ap (λ t. codes "from=" ++ (escape from ++ (b'&' ∷ t)))
              (query-cons (codes "to") to [] (codes "state="))))

digit_unit : (c : ℕ) → IsDigit c → c < 65_536
digit_unit c h = omega arith

IsDigit-IsUnits : (s : Text) → All IsDigit s → IsUnits s
IsDigit-IsUnits s h = All-map (λ c (k : IsDigit c). digit_unit c k) s h

pub show_ℤ-IsUnits : (n : ℤ) → IsUnits (show_ℤ n)
unfolding show_ℤ
show_ℤ-IsUnits (pos n) = IsDigit-IsUnits (show n) (show-IsDigit n)
show_ℤ-IsUnits (negsuc n) = (omega arith, IsDigit-IsUnits (show (suc n)) (show-IsDigit (suc n)))

pub join-All : (P : ℕ → Type 0) (c : ℕ) (ws : List Text) → P c → All (All P) ws → All P (join c ws)
unfolding join
join-All P c [] p h = tt
join-All P c (w ∷ []) p h = h.0
join-All P c (w ∷ v ∷ ws) p h =
    All-append P w (c ∷ join c (v ∷ ws)) h.0 (p, join-All P c (v ∷ ws) p h.1)

show-IsUnits : (n : ℕ) → IsUnits (show n)
show-IsUnits n = IsDigit-IsUnits (show n) (show-IsDigit n)

pub items_of-IsUnits : (k : ℕ) (formats : List ℕ) → All IsUnits (items_of k formats)
unfolding items_of item
items_of-IsUnits k [] = tt
items_of-IsUnits k (f ∷ formats) = (
  All-append (λ c. c < 65_536) (show k) (b',' ∷ show f) (show-IsUnits k)
      (omega arith, show-IsUnits f),
  items_of-IsUnits (suc k) formats,
)

state_of-ArePairs :
    (k : ℕ) (graphs : List (List Text)) → All AreKept graphs → ArePairs (state_of k graphs)
unfolding state_of func_of
state_of-ArePairs k [] h = tt
state_of-ArePairs k (series ∷ graphs) h = (
  record {
    plain = escape-IsDigit (show k) (show-IsDigit k);
    key_units = show-IsUnits k;
    value_units = join-All (λ c. c < 65_536) b';' series (omega arith) h.0.2;
    no_func = λ f.
        ground (arith, show-ne_word k b's' (codes "tate"), show-ne_word k b'd' (codes "ashboard"));
  },
  state_of-ArePairs (suc k) graphs h.1,
)

word-IsPair :
    (k v : Text)
    → escape k ≡ k
    → IsUnits k
    → ((f : Option Func) → func_of k f ≡ f)
    → IsUnits v
    → IsPair k v
word-IsPair k v plain units no_func h = record {
  plain = plain;
  key_units = units;
  value_units = h;
  no_func = no_func;
}

tail_of-ArePairs :
    (graphs from to : Text)
    → IsUnits graphs
    → IsUnits from
    → IsUnits to
    → ArePairs (tail_of graphs from to)
unfolding escape escape_unit is_plain func_of text_eq
tail_of-ArePairs graphs from to g f t = (
  word-IsPair (codes "graphs") graphs refl (omega arith) (λ _. refl) g,
  (
    word-IsPair (codes "from") from refl (omega arith) (λ _. refl) f,
    (word-IsPair (codes "to") to refl (omega arith) (λ _. refl) t, tt),
  ),
)

-- What the loop over the pairs ends with.
abbrev pub args_of : List (List Text) → (graphs from to : Text) → Object Text Text
unfolding puts
args_of series graphs from to =
    puts (tail_of graphs from to ++ (codes "state", []) ∷ []) (puts (state_of 0 series) [])

pub read_pairs-args_of :
    (series : List (List Text)) (graphs from to : Text)
    → All AreKept series
    → IsUnits graphs
    → IsUnits from
    → IsUnits to
    → read_pairs
        (split b'&' (query (state_of 0 series ++ tail_of graphs from to) ++ codes "state="))
        none
        []
      ≡ (some state, args_of series graphs from to)
unfolding read_pairs split func_of text_eq puts unescape
read_pairs-args_of series graphs from to kept g f t =
    read_pairs-query (state_of 0 series ++ tail_of graphs from to) (codes "state=") none [] (
      All-append _ (state_of 0 series) (tail_of graphs from to) (state_of-ArePairs 0 series kept)
        (tail_of-ArePairs graphs from to g f t))
    ∙ ap (λ args. (some state, put (codes "state") [] args))
        (puts-append (state_of 0 series) (tail_of graphs from to) [])

-- The arguments hold all that was packed up.
pub record HoldsAll (args : Object Text Text) (series : List (List Text)) (graphs from to : Text)
    : Type 0 where
  pub series_held : Holds args 0 series
  pub graphs_held : get (codes "graphs") args ≡ some graphs
  pub from_held : get (codes "from") args ≡ some from
  pub to_held : get (codes "to") args ≡ some to

pub args_of-HoldsAll :
    (series : List (List Text)) (graphs from to : Text)
    → HoldsAll (args_of series graphs from to) series graphs from to
unfolding text_eq puts
args_of-HoldsAll series graphs from to =
    let s = puts (state_of 0 series) [] in
    let rest : List (Text × Text) = (codes "to", to) ∷ (codes "state", []) ∷ [] in
    let with_graphs = put (codes "graphs") graphs s in
    let with_from = put (codes "from") from with_graphs in
    record {
      series_held =
          puts-Holds (tail_of graphs from to ++ (codes "state", []) ∷ []) s
            (λ j. (
              word-ne_show j b'g' (codes "raphs") (omega arith),
              (
                word-ne_show j b'f' (codes "rom") (omega arith),
                (
                  word-ne_show j b't' (codes "o") (omega arith),
                  (word-ne_show j b's' (codes "tate") (omega arith), tt),
                ),
              ),
            ))
            0 series (puts-state_of-Holds 0 series []);
      graphs_held =
          get-puts-other (codes "graphs") ((codes "from", from) ∷ rest) with_graphs
            (refl, (refl, (refl, tt)))
          ∙ get-put_self (codes "graphs") graphs s;
      from_held =
          get-puts-other (codes "from") rest with_from (refl, (refl, tt))
          ∙ get-put_self (codes "from") from with_graphs;
      to_held =
          get-puts-other (codes "to") ((codes "state", []) ∷ []) (put (codes "to") to with_from)
            (refl, tt)
          ∙ get-put_self (codes "to") to with_from;
    }
