-- ===== src/Net/Http/Address.antt =====
-- `Url::parse` of src/net/http_client.cpp on addresses written in the usual form.
use nova_visualiser.Prelude.{
  ℕ, ◌<◌, ◌≡◌, refl, ap, ◌∙◌, none, some, ◌∷◌, ◌++◌, All-append, Bytes, codes, ◌==◌, false, arith,
}
use nova_visualiser.Net.Text.{behind, cut}
use nova_visualiser.Net.Text.Cuts.{Lacks, cut-append, cut-none}
use nova_visualiser.Net.Http.{
  parse_url, parse_remainder, without_scheme, not_https, accepted, with_port, with_path, atoi,
}

parse_url-http :
    (authority path : Bytes)
    → Lacks b'/' authority
    → parse_url (codes "http://" ++ (authority ++ b'/' ∷ path))
      ≡ accepted (with_port (b'/' ∷ path) authority (cut b':' authority))
unfolding parse_url behind without_scheme parse_remainder
parse_url-http authority path h =
    ap (λ o. accepted (with_path (authority ++ b'/' ∷ path) o)) (cut-append b'/' authority path h)
    ∙ unfold with_path in refl

accepted-with_port :
    (h : ℕ) (hs port path : Bytes)
    → 0 < atoi port
    → accepted (with_port path ((h ∷ hs) ++ b':' ∷ port) (some (h ∷ hs, port)))
      ≡ some (record { host = h ∷ hs; port = atoi port; path = path })
unfolding accepted with_port
accepted-with_port h hs port path positive = rw (nonzero (atoi port) positive) refl
  where
    nonzero : (n : ℕ) → 0 < n → (n == 0) ≡ false
    nonzero n h = ground arith

parse_url-https : (rest : Bytes) → parse_url (codes "https://" ++ rest) ≡ none
unfolding parse_url behind without_scheme not_https parse_remainder
parse_url-https rest = refl

-- For a host that is not empty and has no slash and no colon, and any path: an http address with a
-- port text without a slash, which `atoi` reads as a positive number, gives this host, port and
-- path; one without a port gives port 80; and no https address is accepted.
pub parse_url_lem :
    (h : ℕ) (hs port path : Bytes)
    → Lacks b'/' (h ∷ hs)
    → Lacks b':' (h ∷ hs)
    → Lacks b'/' port
    → 0 < atoi port
    → ((parse_url (codes "http://" ++ (((h ∷ hs) ++ b':' ∷ port) ++ b'/' ∷ path))
          ≡ some (record { host = h ∷ hs; port = atoi port; path = b'/' ∷ path }))
        × (parse_url (codes "http://" ++ ((h ∷ hs) ++ b'/' ∷ path))
            ≡ some (record { host = h ∷ hs; port = 80; path = b'/' ∷ path })))
      × (parse_url (codes "https://" ++ ((h ∷ hs) ++ b'/' ∷ path)) ≡ none)
parse_url_lem h hs port path slash colon port_slash positive = ((explicit, standard), refused)
  where
    explicit :
        parse_url (codes "http://" ++ (((h ∷ hs) ++ b':' ∷ port) ++ b'/' ∷ path))
        ≡ some (record { host = h ∷ hs; port = atoi port; path = b'/' ∷ path })
    explicit =
        parse_url-http ((h ∷ hs) ++ b':' ∷ port) path
          (All-append (λ c. (c == b'/') ≡ false) (h ∷ hs) (b':' ∷ port) slash (refl, port_slash))
        ∙ ap (λ o. accepted (with_port (b'/' ∷ path) ((h ∷ hs) ++ b':' ∷ port) o))
            (cut-append b':' (h ∷ hs) port colon)
        ∙ accepted-with_port h hs port (b'/' ∷ path) positive

    standard :
        parse_url (codes "http://" ++ ((h ∷ hs) ++ b'/' ∷ path))
        ≡ some (record { host = h ∷ hs; port = 80; path = b'/' ∷ path })
    standard =
        parse_url-http (h ∷ hs) path slash
        ∙ ap (λ o. accepted (with_port (b'/' ∷ path) (h ∷ hs) o)) (cut-none b':' (h ∷ hs) colon)
        ∙ unfold accepted in (unfold with_port in refl)

    refused : parse_url (codes "https://" ++ ((h ∷ hs) ++ b'/' ∷ path)) ≡ none
    refused = parse_url-https ((h ∷ hs) ++ b'/' ∷ path)
