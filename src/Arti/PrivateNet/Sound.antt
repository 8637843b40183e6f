-- ===== src/Arti/PrivateNet/Sound.antt =====
-- What `PrivateNet::parse` accepts: well-formed authorities and fallback caches, which it reads again
-- from their canonical form.
use fungi_transport_ci_test.Prelude.{
  refl, ℕ, ◌+◌, ◌≡◌, ◌≢◌, sym, ap, ◌∙◌, subst, List, [], ◌∷◌, ◌++◌, map, All, All-append, Result,
  ok, err, ◌>>=◌, ◌==◌, if_cases,
}
use fungi_transport_ci_test.Text.{
  Text, codes, lines, trim, split_whitespace, text_eq, IsWord, split_whitespace-IsWord,
}
use fungi_transport_ci_test.Arti.PrivateNet.{
  Authority, Fallback, PrivateNet, all_hex, push_authority, push_fallback, directive, parse_line,
  parse_lines, not_empty, no_net, parse,
}
use fungi_transport_ci_test.Arti.PrivateNet.Print.{
  Entry, authority, fallback, IsAuthority, IsFallback, IsEntry, net_of, authorities_of,
  fallbacks_of, show_entries, parse-show_entries,
}

pub record IsPrivateNet (net : PrivateNet) : Type 0 where
  pub all_authorities : All IsAuthority net.authorities
  pub all_fallbacks : All IsFallback net.fallbacks

-- A step of the parser keeps the network well-formed, if it succeeds.
abbrev Keeps : Result Text PrivateNet → Type 0
Keeps (ok net) = IsPrivateNet net
Keeps (err e) = Unit

push_authority-IsPrivateNet :
    (name v3ident : Text) (net : PrivateNet)
    → IsAuthority (record { name = name; v3ident = v3ident })
    → IsPrivateNet net
    → IsPrivateNet (push_authority name v3ident net)
unfolding push_authority
push_authority-IsPrivateNet name v3ident net h wf = record {
  all_authorities = All-append IsAuthority net.authorities _ wf.all_authorities (h, tt);
  all_fallbacks = wf.all_fallbacks;
}

push_fallback-IsPrivateNet :
    (rsa ed orport : Text) (net : PrivateNet)
    → IsFallback (record { rsa = rsa; ed = ed; orport = orport })
    → IsPrivateNet net
    → IsPrivateNet (push_fallback rsa ed orport net)
unfolding push_fallback
push_fallback-IsPrivateNet rsa ed orport net h wf = record {
  all_authorities = wf.all_authorities;
  all_fallbacks = All-append IsFallback net.fallbacks _ wf.all_fallbacks (h, tt);
}

directive-Keeps :
    (n : ℕ) (ws : List Text) (net : PrivateNet)
    → All IsWord ws
    → IsPrivateNet net
    → Keeps (directive n ws net)
unfolding directive
directive-Keeps n [] net h wf = tt
directive-Keeps n (word ∷ []) net h wf = tt
directive-Keeps n (word ∷ a ∷ []) net h wf = tt
directive-Keeps n (word ∷ a ∷ b ∷ []) net h wf =
    if_cases Keeps (text_eq word (codes "authority"))
      (λ _.
        if_cases Keeps (all_hex b) (λ e. push_authority-IsPrivateNet a b net (h.1.0, h.1.1.0, e) wf)
          (λ _. tt))
      (λ _. tt)
directive-Keeps n (word ∷ a ∷ b ∷ c ∷ []) net h wf =
    if_cases Keeps (text_eq word (codes "fallback"))
      (λ _. push_fallback-IsPrivateNet a b c net (h.1.0, h.1.1.0, h.1.1.1.0) wf) (λ _. tt)
directive-Keeps n (word ∷ a ∷ b ∷ c ∷ d ∷ ws) net h wf = tt

parse_line-Keeps :
    (n : ℕ) (s : Text) (net : PrivateNet) → IsPrivateNet net → Keeps (parse_line n s net)
unfolding parse_line
parse_line-Keeps n [] net wf = wf
parse_line-Keeps n (c ∷ s) net wf =
    if_cases Keeps (c == b'#') (λ _. wf)
      (λ _. directive-Keeps n (split_whitespace (c ∷ s)) net (split_whitespace-IsWord (c ∷ s)) wf)

>>=-Keeps :
    (r : Result Text PrivateNet) (f : PrivateNet → Result Text PrivateNet)
    → Keeps r
    → ((net : PrivateNet) → IsPrivateNet net → Keeps (f net))
    → Keeps (r >>= f)
>>=-Keeps (ok net) f h k = k net h
>>=-Keeps (err e) f h k = tt

parse_lines-Keeps :
    (n : ℕ) (ls : List Text) (net : PrivateNet) → IsPrivateNet net → Keeps (parse_lines n ls net)
unfolding parse_lines
parse_lines-Keeps n [] net wf = wf
parse_lines-Keeps n (l ∷ ls) net wf =
    >>=-Keeps (parse_line n (trim l) net) (parse_lines (n + 1) ls)
      (parse_line-Keeps n (trim l) net wf) (parse_lines-Keeps (n + 1) ls)

-- What a parse that succeeds gives.
abbrev pub IsUsable : PrivateNet → Type 0
IsUsable net = IsPrivateNet net × (net.authorities ≢ []) × (net.fallbacks ≢ [])

not_empty-IsUsable :
    (xs : List Authority) (fs : List Fallback) (net : PrivateNet)
    → IsPrivateNet (record { authorities = xs; fallbacks = fs })
    → not_empty xs fs ≡ ok net
    → IsUsable net
unfolding not_empty
not_empty-IsUsable [] fs net wf h = cc
not_empty-IsUsable (x ∷ xs) [] net wf h = cc
not_empty-IsUsable (x ∷ xs) (f ∷ fs) net wf h =
    subst IsUsable (ok-injective h) (wf, (λ e. cc), (λ e. cc))
  where
    ok-injective : {a b : PrivateNet} → ◌≡◌ {A = Result Text PrivateNet} (ok a) (ok b) → a ≡ b
    ok-injective h = cc

checked-IsUsable :
    (r : Result Text PrivateNet) (net : PrivateNet)
    → Keeps r
    → (r >>= λ net. not_empty net.authorities net.fallbacks) ≡ ok net
    → IsUsable net
checked-IsUsable (ok read) net wf h = not_empty-IsUsable read.authorities read.fallbacks net wf h
checked-IsUsable (err e) net wf h = cc

pub parse-IsUsable : (text : Text) (net : PrivateNet) → parse text ≡ ok net → IsUsable net
unfolding parse
parse-IsUsable text net h =
    checked-IsUsable (parse_lines 0 (lines text) no_net) net
      (parse_lines-Keeps 0 (lines text) no_net
        (record { all_authorities = tt; all_fallbacks = tt }))
      h

-- The canonical form of a network: its authorities, and then its fallback caches.
abbrev pub entries_of : PrivateNet → List Entry
entries_of net = map authority net.authorities ++ map fallback net.fallbacks

fallbacks-IsEntry : (fs : List Fallback) → All IsFallback fs → All IsEntry (map fallback fs)
fallbacks-IsEntry [] h = tt
fallbacks-IsEntry (f ∷ fs) h = (h.0, fallbacks-IsEntry fs h.1)

authorities-IsEntry : (xs : List Authority) → All IsAuthority xs → All IsEntry (map authority xs)
authorities-IsEntry [] h = tt
authorities-IsEntry (a ∷ xs) h = (h.0, authorities-IsEntry xs h.1)

fallbacks_of-fallbacks :
    (fs : List Fallback)
    → (authorities_of (map fallback fs) ≡ []) × (fallbacks_of (map fallback fs) ≡ fs)
fallbacks_of-fallbacks [] = (refl, refl)
fallbacks_of-fallbacks (f ∷ fs) =
    let (none, same) = fallbacks_of-fallbacks fs in (none, ap (◌∷◌ f) same)

entries_of_lem :
    (xs : List Authority) (fs : List Fallback)
    → (authorities_of (map authority xs ++ map fallback fs) ≡ xs)
      × (fallbacks_of (map authority xs ++ map fallback fs) ≡ fs)
entries_of_lem [] fs = fallbacks_of-fallbacks fs
entries_of_lem (a ∷ xs) fs = let (same, rest) = entries_of_lem xs fs in (ap (◌∷◌ a) same, rest)

net_of-entries_of : (net : PrivateNet) → net_of (entries_of net) ≡ net
net_of-entries_of net =
    let (same, rest) = entries_of_lem net.authorities net.fallbacks in
    ap (λ xs. record { authorities = xs; fallbacks = fallbacks_of (entries_of net) }) same
    ∙ ap (λ fs. record { authorities = net.authorities; fallbacks = fs }) rest

-- A network that was read from any text has at least one authority and one fallback cache, every identity
-- of an authority is hexadecimal, no field is empty or has white space in it, and the canonical form of
-- the network is read as the same network.
pub parse_canonical :
    (text : Text) (net : PrivateNet)
    → parse text ≡ ok net
    → IsUsable net × (parse (show_entries (entries_of net)) ≡ ok net)
parse_canonical text net h =
    let (wf, some_authority, some_fallback) = parse-IsUsable text net h in
    let same = net_of-entries_of net in
    let entries =
      All-append IsEntry (map authority net.authorities) (map fallback net.fallbacks)
        (authorities-IsEntry net.authorities wf.all_authorities)
        (fallbacks-IsEntry net.fallbacks wf.all_fallbacks) in
    (
      (wf, some_authority, some_fallback),
      parse-show_entries (entries_of net) entries
            (subst (λ n. n.authorities ≢ []) (sym same) some_authority)
            (subst (λ n. n.fallbacks ≢ []) (sym same) some_fallback)
          ∙ ap ok same,
    )
