-- ===== src/Startup/Link.antt =====
-- What the link to the description files points to.

use ops_sysd.Base.{
  ℕ, ◌≤◌, ◌≡◌, refl, ap, true, false, ◌&&◌, List, [], ◌∷◌, ◌++◌, some, length, take_whole, All,
  arith,
}
use ops_sysd.Base.Text.{Bytes}
use ops_sysd.Base.Outcome.{rc_zero}
use ops_sysd.Startup.HwDesc.{
  quote, ends_in_quote, drop_last, strip_quotes, take_line, get_sys_cmd_out, get_manuf_and_prodname,
  Platform, HwDesc, create_link_to_desc_files, link_names, create_link_to_hwdesc_files,
  find_hw_desc_files,
}

-- A line that begins with '#'
abbrev pub IsComment : Bytes → Type 0
IsComment [] = ⊥
IsComment (c ∷ cs) = c ≡ b'#'

drop_last-append : (xs : Bytes) (c : ℕ) → drop_last (xs ++ c ∷ []) ≡ xs
drop_last-append [] c = refl
drop_last-append (x ∷ []) c = refl
drop_last-append (x ∷ y ∷ xs) c = ap (◌∷◌ x) (drop_last-append (y ∷ xs) c)

ends_in_quote-append : (xs : Bytes) → ends_in_quote (xs ++ quote ∷ []) ≡ true
ends_in_quote-append [] = refl
ends_in_quote-append (x ∷ []) = refl
ends_in_quote-append (x ∷ y ∷ xs) = ends_in_quote-append (y ∷ xs)

-- A text in quotes, and the line that it is printed on
abbrev pub quoted : Bytes → Bytes
quoted name = quote ∷ (name ++ quote ∷ [])

strip_quotes-quoted : (name : Bytes) → strip_quotes (quoted name) ≡ name
unfolding strip_quotes
strip_quotes-quoted name = rw (ends_in_quote-append (quote ∷ name)) (drop_last-append name quote)

take_line-comments :
    (comments : List Bytes) (name : Bytes) (rest : List Bytes)
    → All IsComment comments
    → take_line (comments ++ ((quoted name ++ 10 ∷ []) ∷ rest)) ≡ some (quoted name)
unfolding take_line
take_line-comments [] name rest h = ap some (drop_last-append (quoted name) 10)
take_line-comments ([] ∷ comments) name rest (e, h) = absurd e
take_line-comments ((d ∷ ds) ∷ comments) name rest (e, h) =
    rw e (take_line-comments comments name rest h)

-- Outside of a simulation: if each of the two commands prints comments and then a name in quotes on a
-- line of its own, the path of the two names is shorter than its array, there are files, the old link
-- can be removed, the directory is there or can be made, and the link can be made, then the call
-- succeeds, and both the link and `g_hw_desc_dir` are the path with the names without their quotes.
pub find_hw_desc_files-linked :
    (p : Platform) (s : HwDesc) (manufacturer product : Bytes)
    (before before' rest rest' : List Bytes)
    → p.simulation ≡ false
    → All IsComment before
    → All IsComment before'
    → p.manufacturer ≡ some (before ++ ((quoted manufacturer ++ 10 ∷ []) ∷ rest))
    → p.product ≡ some (before' ++ ((quoted product ++ 10 ∷ []) ∷ rest'))
    → length (p.hwdesc_files_path ++ (b'/' ∷ (manufacturer ++ (b'/' ∷ product)))) ≤ 1023
    → p.exists (p.hwdesc_files_path ++ (b'/' ∷ (manufacturer ++ (b'/' ∷ product)))) ≡ true
    → (p.removes && p.makes_directory && p.links) ≡ true
    → find_hw_desc_files p s ≡ (
      rc_zero,
      record {
        g_hw_desc_dir = some (p.hwdesc_files_path ++ (b'/' ∷ (manufacturer ++ (b'/' ∷ product))));
        link = some (p.hwdesc_files_path ++ (b'/' ∷ (manufacturer ++ (b'/' ∷ product))));
      },
    )
unfolding find_hw_desc_files create_link_to_hwdesc_files get_manuf_and_prodname get_sys_cmd_out
    link_names create_link_to_desc_files
find_hw_desc_files-linked p s manufacturer product before before' rest rest' sim c c' m m' short
      there all =
    let path = p.hwdesc_files_path ++ (b'/' ∷ (manufacturer ++ (b'/' ∷ product))) in
    let line = take_line-comments before manufacturer rest c in
    let line' = take_line-comments before' product rest' c' in
    let (r, d, l) : (p.removes ≡ true) × (p.makes_directory ≡ true) × (p.links ≡ true) =
      ground (arith, all) in
    simp (
      sim,
      m,
      m',
      line,
      line',
      strip_quotes-quoted manufacturer,
      strip_quotes-quoted product,
      take_whole path 1023 short,
      there,
      r,
      d,
      l,
    )
