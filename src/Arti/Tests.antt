-- ===== src/Arti/Tests.antt =====
-- Runs of crates/fungi-transport-arti with a client that always works, and the theorems about it at
-- concrete inputs.
use fungi_transport_ci_test.Prelude.{
  ℕ, ◌≡◌, refl, List, [], ◌∷◌, ◌++◌, none, some, ok, err, All, map_err,
}
use fungi_transport_ci_test.Text.{
  Text, codes, as_bytes, lines, trim, trim_end, split_whitespace, from_utf8, is_whitespace, text_eq,
  show_nat,
}
use fungi_transport_ci_test.Addr.{onion_addr}
use fungi_transport_ci_test.Framed.{fresh as fresh_channel, new as new_channel}
use fungi_transport_ci_test.Arti.PrivateNet.{
  PrivateNet, all_hex, parse, parse_line, directive, build_config,
}
use fungi_transport_ci_test.Arti.PrivateNet.Print.{
  Entry, IsEntry, comment, blank, authority, fallback, show_entries, net_of, parse-show_entries,
}
use fungi_transport_ci_test.Arti.PrivateNet.Sound.{IsUsable, entries_of, parse_canonical}
use fungi_transport_ci_test.Arti.{ArtiTransport, ArtiListener, accept, bootstrap, opaque}
use fungi_transport_ci_test.Arti.Accept.{Accepts, accept-Accepts}
use fungi_transport_ci_test.Arti.Lazy.{new, init, with_config, settle, configure_private_net}
use fungi_transport_ci_test.Arti.Boot.{
  enter, leave, configure, got, configured, Shared, event, events, boots_once,
}
use fungi_transport_ci_test.Arti.Descriptor.{fresh, init-Parses}
use fungi_transport_ci_test.Arti.Samples.{
  client, any_net, no_message, lf, small_net, small_text, reads_small,
}

names_the_line :
    parse (lf [] ++ codes "authority da1 XY") ≡ err (codes "line 2: v3ident is not hex")
unfolding parse parse_line directive lines trim split_whitespace trim_end is_whitespace text_eq
    all_hex show_nat
names_the_line = refl

needs_an_authority : parse (codes "#") ≡ err (codes "no authorities in private-net file")
unfolding parse parse_line lines trim trim_end is_whitespace
needs_an_authority = refl

abbrev small_entries : List Entry
small_entries =
    comment (codes " net")
    ∷ authority (record { name = codes "da1"; v3ident = codes "AB" })
    ∷ blank
    ∷ fallback (record { rsa = codes "R"; ed = codes "E"; orport = codes "1.2.3.4:1" })
    ∷ []

small_entries-IsEntry : All IsEntry small_entries
unfolding is_whitespace all_hex
small_entries-IsEntry = (
  ((refl, refl), ((refl, refl), ((refl, refl), ((refl, refl), tt)))),
  (
    (((λ e. cc), (refl, (refl, (refl, tt)))), ((λ e. cc), (refl, (refl, tt))), refl),
    (
      tt,
      (
        (
          ((λ e. cc), (refl, tt)),
          ((λ e. cc), (refl, tt)),
          ((λ e. cc), (refl, (refl, (refl, (refl, (refl, (refl, (refl, (refl, (refl, tt)))))))))),
        ),
        tt,
      ),
    ),
  ),
)

parse-show_entries_example : parse (show_entries small_entries) ≡ ok (net_of small_entries)
unfolding is_whitespace all_hex
parse-show_entries_example =
    parse-show_entries small_entries small_entries-IsEntry (λ e. cc) (λ e. cc)

parse_canonical_example :
    IsUsable small_net × (parse (show_entries (entries_of small_net)) ≡ ok small_net)
parse_canonical_example = parse_canonical small_text small_net reads_small

abbrev listener : ArtiListener Text ℕ
listener = record {
  incoming = 0 ∷ 81 ∷ 80 ∷ 82 ∷ [];
  addr = onion_addr (codes "a.onion") 80;
  virt_port = 80;
  max_msg_len = 16;
  service = codes "a";
}

accepts_third :
    let ((r, l), w) = accept client listener [] in
    (r ≡ some (ok (fresh_channel 80 16))) × (l.incoming ≡ 82 ∷ []) × (w ≡ 0 ∷ 81 ∷ [])
unfolding accept new_channel
accepts_third = (refl, refl, refl)

accept-Accepts_example :
    let ((r, l'), w') = accept client listener [] in
    Accepts client 80 16 (0 ∷ 81 ∷ 80 ∷ 82 ∷ []) [] ((r, l'.incoming), w')
accept-Accepts_example = accept-Accepts client listener []

abbrev start : Shared ℕ (List ℕ)
start = fresh client any_net no_message (codes "s") (codes "c") 16 []

abbrev booted : ArtiTransport ℕ
booted = record { client = 0; max_msg_len = 16 }

abbrev running : Shared ℕ (List ℕ)
running = record start { running = some none }

boots_once_example :
    events client any_net no_message
      (enter ∷ configure [] ∷ [])
      (event client any_net no_message leave running).1
    ≡ (
      got (ok booted)
          ∷ configured (err (codes "configure_private_net called after arti bootstrapped"))
          ∷ [],
      (event client any_net no_message leave running).1,
    )
unfolding event init settle bootstrap new
boots_once_example =
    boots_once client any_net no_message running booted (enter ∷ configure [] ∷ []) refl

init-Parses_example :
    let s =
      (events client any_net no_message (configure (as_bytes small_text) ∷ enter ∷ []) start).1 in
    (net : PrivateNet) × (parse small_text ≡ ok net)
    × (init client any_net (some small_text) s.inner
        ≡ with_config client any_net s.inner.max_msg_len
            (map_err opaque (build_config any_net net (codes "s") (codes "c"))))
unfolding events configure_private_net from_utf8 as_bytes parse parse_line directive lines trim
    split_whitespace trim_end is_whitespace text_eq all_hex new
init-Parses_example =
    init-Parses client any_net no_message (codes "s") (codes "c") 16 []
      (configure (as_bytes small_text) ∷ enter ∷ []) small_text refl
