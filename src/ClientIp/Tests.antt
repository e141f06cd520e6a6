-- ===== src/ClientIp/Tests.antt =====
-- server/internal/iputil/iputil.go: runs with addresses of one character, and the theorems at them.
use pro_labs.Common.{
  ℕ, ◌≡◌, refl, arith, Bool, true, Option, none, some, List, [], ◌∷◌, ◌==◌, ◌⊎◌, Text,
}
use pro_labs.ClientIp.{HttpRequest, is_trusted, last_comma, walk, host_of, extract_client_ip}
use pro_labs.ClientIp.Walk.{hops, pick, walk-pick}
use pro_labs.ClientIp.Safe.{FromProxy, extract_client_ip_lem}

abbrev parse : Text → Option ℕ
parse (c ∷ []) = some c
parse _ = none

abbrev split_host : Text → Option Text
split_host text = none

abbrev same_ip : ℕ → ℕ → Bool
same_ip net ip = net == ip

abbrev trim : Text → Text
trim text = text

abbrev proxies : List ℕ
proxies = 49 ∷ []

-- The header 5,4,1
abbrev forwarded : Text
forwarded = 53 ∷ 44 ∷ 52 ∷ 44 ∷ 49 ∷ []

abbrev sample : HttpRequest
sample = record { remote_addr = 49 ∷ []; x_forwarded_for = forwarded; x_real_ip = [] }

-- The client's own entry is 4; 5 is what it claims. Without a proxy the headers are of no account.
extract_client_ip_runs :
    (extract_client_ip parse split_host same_ip trim sample proxies ≡ 52 ∷ [])
    × (extract_client_ip parse split_host same_ip trim
          (record sample { remote_addr = 50 ∷ [] })
          proxies
        ≡ 50 ∷ [])
    × (extract_client_ip parse split_host same_ip trim
          (record sample { x_forwarded_for = 53 ∷ 44 ∷ [] })
          proxies
        ≡ 49 ∷ [])
unfolding extract_client_ip walk last_comma
extract_client_ip_runs = (refl, refl, refl)

extract_client_ip_lem_example :
    (extract_client_ip parse split_host same_ip trim sample proxies
      ≡ host_of parse split_host same_ip trim sample.remote_addr (split_host sample.remote_addr))
    ⊎ (is_trusted parse split_host same_ip trim
          (parse (
            host_of parse split_host same_ip trim sample.remote_addr
              (split_host sample.remote_addr)))
          proxies
        ≡ true)
      × FromProxy parse split_host same_ip trim sample proxies
          (extract_client_ip parse split_host same_ip trim sample proxies)
extract_client_ip_lem_example =
    extract_client_ip_lem parse split_host same_ip trim sample proxies refl

walk-pick_example :
    walk parse split_host same_ip trim 5 (49 ∷ []) proxies forwarded
    ≡ pick parse split_host same_ip trim (49 ∷ []) proxies (hops forwarded)
walk-pick_example =
    walk-pick parse split_host same_ip trim (49 ∷ []) proxies refl 5 forwarded (omega arith)
