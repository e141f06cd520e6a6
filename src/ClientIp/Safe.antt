-- ===== src/ClientIp/Safe.antt =====
-- server/internal/iputil/iputil.go: a client cannot choose the answer beyond its own hop.
use mathlib.Core.Path.{subst}
use pro_labs.Common.{
  ◌≡◌, refl, sym, ap, ◌∙◌, arith, Bool, true, false, Option, none, some, List, [], ◌∷◌, ◌++◌,
  length, All, if◌then◌else◌, if-cases, Bool-cases, Option-cases, ◌⊎◌, inl, inr, Text,
}
use pro_labs.ClientIp.{
  HttpRequest, in_nets, is_trusted, entry_or, walk, host_of, from_headers, extract_client_ip,
}
use pro_labs.ClientIp.Walk.{hops, pick, walk-pick}

module _ {Ip Net : Type 0} (parse : Text → Option Ip) (split_host : Text → Option Text)
    (contains_ip : Net → Ip → Bool) (trim : Text → Text) where
  -- An address of no trusted proxy among the entries, all entries to the right of which are of trusted ones.
  abbrev pub Chosen : List Net → List Text → Text → Type 0
  Chosen nets es answer =
      (right : List Text) × (e : Text) × (left : List Text) × (ip : Ip) × (es ≡ right ++ (e ∷ left))
      × (answer ≡ trim e)
      × (parse (trim e) ≡ some ip)
      × (in_nets parse split_host contains_ip trim ip nets ≡ false)
      × All
          (λ (h : Text). is_trusted parse split_host contains_ip trim (parse (trim h)) nets ≡ true)
          right

  pick_lem :
      (host : Text) (nets : List Net) (es : List Text)
      → (pick parse split_host contains_ip trim host nets es ≡ host)
        ⊎ Chosen nets es (pick parse split_host contains_ip trim host nets es)
  unfolding pick
  pick_lem host nets [] = inl refl
  pick_lem host nets (e ∷ es) =
      let rest = pick parse split_host contains_ip trim host nets es in
      let decide : Option Ip → Text =
        λ (o : Option Ip). entry_or parse split_host contains_ip trim host nets (trim e) rest o in
      elim (Option-cases (parse (trim e))) [
        | inl malformed ↦ inl (ap decide malformed)
        | inr (ip, parsed) ↦ elim (Bool-cases (in_nets parse split_host contains_ip trim ip nets)) [
          | inl trusted ↦
              let same : decide (parse (trim e)) ≡ rest =
                ap decide parsed ∙ ap (λ (b : Bool). if b then rest else trim e) trusted in
              elim (pick_lem host nets es) [
                | inl at_host ↦ inl (same ∙ at_host)
                | inr (right, f, left, ip', split, answer, parsed', out, all) ↦ inr (
                  e ∷ right,
                  f,
                  left,
                  ip',
                  ap (◌∷◌ e) split,
                  same ∙ answer,
                  parsed',
                  out,
                  (
                    ap (λ (o : Option Ip). is_trusted parse split_host contains_ip trim o nets)
                          parsed
                        ∙ trusted,
                    all,
                  ),
                )
              ]
          | inr outside ↦ inr (
            [],
            e,
            es,
            ip,
            refl,
            ap decide parsed ∙ ap (λ (b : Bool). if b then rest else trim e) outside,
            parsed,
            outside,
            tt,
          )
        ]
      ]

  -- What a trusted proxy says of the client.
  abbrev pub FromProxy : HttpRequest → List Net → Text → Type 0
  FromProxy r nets answer =
      ((r.x_forwarded_for ≡ []) × (answer ≡ trim r.x_real_ip))
      ⊎ Chosen nets (hops r.x_forwarded_for) answer

  from_headers_lem :
      (host : Text) (nets : List Net) (r : HttpRequest) (xff xri : Text)
      → parse (trim []) ≡ none
      → r.x_forwarded_for ≡ xff
      → r.x_real_ip ≡ xri
      → (from_headers parse split_host contains_ip trim host nets xff xri ≡ host)
        ⊎ FromProxy r nets (from_headers parse split_host contains_ip trim host nets xff xri)
  from_headers_lem host nets r [] [] no_ip e f = inl refl
  from_headers_lem host nets r [] (c ∷ xri) no_ip e f = inr (inl (e, ap trim (sym f)))
  from_headers_lem host nets r (c ∷ xff) xri no_ip e f =
      let text : Text = c ∷ xff in
      let same =
        walk-pick parse split_host contains_ip trim host nets no_ip (length text) text
          (omega arith) in
      elim (pick_lem host nets (hops text)) [
        | inl at_host ↦ inl (same ∙ at_host)
        | inr chosen ↦ inr (
            inr (
              subst
                (λ (t : Text).
                  Chosen nets (hops t)
                    (walk parse split_host contains_ip trim (length text) host nets text))
                (sym e) (subst (λ (a : Text). Chosen nets (hops text) a) (sym same) chosen)))
      ]

  -- The address that is answered is the one that the connection comes from; or that is a trusted proxy's, and
  -- it is X-Real-IP, without X-Forwarded-For, or the first entry of X-Forwarded-For from the right that is not
  -- a trusted proxy's, all entries to its right being trusted ones. The empty text is no address.
  pub extract_client_ip_lem :
      (r : HttpRequest) (nets : List Net)
      → parse (trim []) ≡ none
      → (extract_client_ip parse split_host contains_ip trim r nets
          ≡ host_of parse split_host contains_ip trim r.remote_addr (split_host r.remote_addr))
        ⊎ (is_trusted parse split_host contains_ip trim
              (parse (
                host_of parse split_host contains_ip trim r.remote_addr (split_host r.remote_addr)))
              nets
            ≡ true)
          × FromProxy r nets (extract_client_ip parse split_host contains_ip trim r nets)
  unfolding extract_client_ip
  extract_client_ip_lem r nets no_ip =
      let host =
        host_of parse split_host contains_ip trim r.remote_addr (split_host r.remote_addr) in
      let trusted = is_trusted parse split_host contains_ip trim (parse host) nets in
      let given =
        from_headers parse split_host contains_ip trim host nets r.x_forwarded_for r.x_real_ip in
      if-cases (λ (a : Text). (a ≡ host) ⊎ (trusted ≡ true) × FromProxy r nets a) trusted
        (λ e. elim (from_headers_lem host nets r r.x_forwarded_for r.x_real_ip no_ip refl refl) [
          | inl at_host ↦ inl at_host
          | inr proxy ↦ inr (e, proxy)
        ])
        (λ e. inl refl)
