-- ===== src/Server/Services/Table.antt =====
-- The table of services that `svcmgr_add_protocol` of src/server/iocp_svcmgr.c fills.
use kaplarc.Base.{
  length-set, ℕ, zero, suc, ◌+◌, ◌≤◌, ◌<◌, ◌≡◌, ◌≢◌, ◌⊎◌, inl, inr, arith, refl, sym, ◌∙◌, ap,
  subst, Bool, true, false, ◌||◌, Option, none, some, List, [], ◌∷◌, ◌++◌, length, get_elem?, set,
  leb, ◌==◌, if◌then◌else◌, if_either, ◌>>=◌, ==→eq, All,
}
use kaplarc.Server.Services.{
  Protocol, Service, max_service_protocols, max_server_services, find_service, new_service,
  join_service, service_sends_first, svcmgr_add_protocol,
}

-- A service has one to four protocols, and one that sends first is alone.
pub record IsService (svc : Service) : Type 0 where
  pub some_protocol : 0 < length svc.protocols
  pub few : length svc.protocols ≤ max_service_protocols
  pub alone : (length svc.protocols ≡ 1) ⊎ All (λ p. p.sends_first ≡ false) svc.protocols

abbrev pub Distinct : List Service → Type 0
Distinct [] = Unit
Distinct (svc ∷ svcs) = All (λ t. t.port ≢ svc.port) svcs × Distinct svcs

-- At most four services, each in order, on different ports.
pub record IsTable (svcs : List Service) : Type 0 where
  pub few : length svcs ≤ max_server_services
  pub services : All IsService svcs
  pub ports : Distinct svcs

module _ {A : Type 0} (P : A → Type 0) where
  All-set : (xs : List A) (i : ℕ) (v : A) → All P xs → P v → All P (set xs i v)
  All-set [] i v h p = tt
  All-set (x ∷ xs) zero v h p = (p, h.1)
  All-set (x ∷ xs) (suc i) v h p = (h.0, All-set xs i v h.1 p)

  All-get : (xs : List A) (i : ℕ) (v : A) → All P xs → get_elem? xs i ≡ some v → P v
  All-get [] i v h e = absurd (cc)
  All-get (x ∷ xs) zero v h e = subst P (cc) h.0
  All-get (x ∷ xs) (suc i) v h e = All-get xs i v h.1 e

  All-snoc : (xs : List A) (v : A) → All P xs → P v → All P (xs ++ (v ∷ []))
  All-snoc [] v h p = (p, tt)
  All-snoc (x ∷ xs) v h p = (h.0, All-snoc xs v h.1 p)

length-snoc : {A : Type 0} (xs : List A) (v : A) → length (xs ++ (v ∷ [])) ≡ length xs + 1
length-snoc [] v = refl
length-snoc (x ∷ xs) v = omega (arith, length-snoc xs v)

set-get : {A : Type 0} (xs : List A) (i : ℕ) (v : A) → get_elem? xs i ≡ some v → set xs i v ≡ xs
set-get [] i v e = refl
set-get (x ∷ xs) zero v e = cc
set-get (x ∷ xs) (suc i) v e = ap (λ l. x ∷ l) (set-get xs i v e)

Distinct-snoc :
    (svcs : List Service) (svc : Service)
    → Distinct svcs
    → All (λ t. t.port ≢ svc.port) svcs
    → Distinct (svcs ++ (svc ∷ []))
Distinct-snoc [] svc d h = (tt, tt)
Distinct-snoc (t ∷ svcs) svc d h = (
  All-snoc (λ u. u.port ≢ t.port) svcs svc d.0 (λ e. h.0 (sym e)),
  Distinct-snoc svcs svc d.1 h.1,
)

Distinct-set :
    (svcs : List Service) (i : ℕ) (svc svc' : Service)
    → Distinct svcs
    → get_elem? svcs i ≡ some svc
    → svc'.port ≡ svc.port
    → Distinct (set svcs i svc')
Distinct-set [] i svc svc' d e same = tt
Distinct-set (t ∷ svcs) zero svc svc' d e same =
    let here : t.port ≡ svc'.port =
      ap (λ (o : Service). o.port) {x = t} {y = svc} (cc) ∙ sym same in
    (subst (λ (p : ℕ). All (λ u. u.port ≢ p) svcs) here d.0, d.1)
Distinct-set (t ∷ svcs) (suc i) svc svc' d e same = (
  All-set (λ u. u.port ≢ t.port) svcs i svc' d.0
      (λ h. All-get (λ u. u.port ≢ t.port) svcs i svc d.0 e (sym same ∙ h)),
  Distinct-set svcs i svc svc' d.1 e same,
)

-- The search by port.
abbrev Found : ℕ → List Service → Option ℕ → Type 0
Found port svcs none = All (λ t. t.port ≢ port) svcs
Found port svcs (some i) = (svc : Service) × (get_elem? svcs i ≡ some svc) × (svc.port ≡ port)

passed_over :
    (port : ℕ) (t : Service) (svcs : List Service) (o : Option ℕ)
    → t.port ≢ port
    → Found port svcs o
    → Found port (t ∷ svcs) (o >>= λ i. some (i + 1))
passed_over port t svcs none ne f = (ne, f)
passed_over port t svcs (some i) ne (svc, e, p) = (
  svc,
  subst (λ (j : ℕ). get_elem? (t ∷ svcs) j ≡ some svc) {x = suc i} {y = i + 1} (omega arith) e,
  p,
)

found : (port : ℕ) (svcs : List Service) → Found port svcs (find_service port svcs)
unfolding find_service
found port [] = tt
found port (t ∷ svcs) =
    if_either (Found port (t ∷ svcs)) (t.port == port) _ _ (λ e. (t, refl, ==→eq t.port port e))
      (λ h. passed_over port t svcs (find_service port svcs) (ground arith) (found port svcs))

-- A protocol that joins keeps its service in order; one that does not leaves it.
abbrev Joined : Service → Bool × Service → Type 0
Joined svc r = IsService r.1 × (r.1.port ≡ svc.port) × (r.0 ≡ false → r.1 ≡ svc)

or_false : (a b c : Bool) → (a || b || c) ≡ false → (a ≡ false) × (b ≡ false) × (c ≡ false)
or_false false false false h = (refl, refl, refl)
or_false true b c h = absurd (cc)
or_false false true c h = absurd (cc)
or_false false false true h = absurd (cc)

none_sends_first :
    (ps qs : List Protocol) (q : Protocol)
    → ps ≡ q ∷ qs
    → q.sends_first ≡ false
    → (length ps ≡ 1) ⊎ All (λ p. p.sends_first ≡ false) ps
    → All (λ p. p.sends_first ≡ false) ps
none_sends_first ps qs q e h (inr all) = all
none_sends_first ps [] q e h (inl one) = subst (All (λ p. p.sends_first ≡ false)) (sym e) (h, tt)
none_sends_first ps (q' ∷ qs) q e h (inl one) = absurd (omega (arith, ap length e))

joins :
    (svc : Service) (p q : Protocol) (qs : List Protocol)
    → IsService svc
    → svc.protocols ≡ q ∷ qs
    → (p.sends_first || leb max_service_protocols (length svc.protocols) || q.sends_first) ≡ false
    → IsService (record svc { protocols = svc.protocols ++ (p ∷ []) })
joins svc p q qs v e h =
    let (a, b, c) =
      or_false p.sends_first (leb max_service_protocols (length svc.protocols)) q.sends_first h in
    record {
      some_protocol = omega (arith, length-snoc svc.protocols p);
      few = ground (arith, length-snoc svc.protocols p);
      alone = inr (
          All-snoc (λ o. o.sends_first ≡ false) svc.protocols p
            (none_sends_first svc.protocols qs q e c v.alone) a);
    }

join_lem :
    (svc : Service) (p : Protocol)
    → IsService svc
    → (r : Bool × Service) × (join_service svc p ≡ some r) × Joined svc r
unfolding join_service service_sends_first
join_lem svc p v = by_list svc.protocols refl
  where
    by_list :
        (ps : List Protocol)
        → svc.protocols ≡ ps
        → let o : Option Bool = elim ps [ [] ↦ none | q ∷ qs ↦ some q.sends_first ] in
          (r : Bool × Service) × ((o >>= λ first. some (
              if p.sends_first || leb max_service_protocols (length svc.protocols) || first
              then (false, svc)
              else (true, record svc { protocols = svc.protocols ++ (p ∷ []) })))
            ≡ some r)
          × Joined svc r
    by_list [] e = absurd (omega (arith, v.some_protocol, ap length e))
    by_list (q ∷ qs) e = (
      _,
      refl,
      if_either (Joined svc)
          (p.sends_first || leb max_service_protocols (length svc.protocols) || q.sends_first) _ _
          (λ _. (v, refl, λ _. refl)) (λ h. (joins svc p q qs v e h, refl, λ f. absurd (cc))),
    )

new_service-IsService : (p : Protocol) (port : ℕ) → IsService (new_service p port)
unfolding new_service
new_service-IsService p port = record {
  some_protocol = omega arith;
  few = omega arith;
  alone = inl refl;
}

-- What an addition to the table leaves.
abbrev Added : List Service → Bool × List Service → Type 0
Added svcs r = IsTable r.1 × (r.0 ≡ false → r.1 ≡ svcs)

-- Adding a protocol to a table in order ends, and leaves a table in order: at most four services,
-- on different ports, with one to four protocols each, where one that sends first is alone. When
-- the answer is false, the table is as it was.
pub svcmgr_add_protocol-IsTable :
    (svcs : List Service) (p : Protocol) (port : ℕ)
    → IsTable svcs
    → (ok : Bool) × (svcs' : List Service) × (svcmgr_add_protocol svcs p port ≡ some (ok, svcs'))
      × IsTable svcs'
      × (ok ≡ false → svcs' ≡ svcs)
unfolding svcmgr_add_protocol new_service
svcmgr_add_protocol-IsTable svcs p port v =
    let (ok, svcs', e, (table, kept)) = by_search (find_service port svcs) (found port svcs) in
    (ok, svcs', e, table, kept)
  where
    by_search :
        (o : Option ℕ)
        → Found port svcs o
        → let r : Option (Bool × List Service) = elim o [
          | none ↦ some (
              if leb max_server_services (length svcs)
              then (false, svcs)
              else (true, svcs ++ (new_service p port ∷ [])))
          | some i ↦
              get_elem? svcs i >>= λ svc. join_service svc p >>= λ r. some (r.0, set svcs i r.1)
        ] in
          (ok : Bool) × (svcs' : List Service) × (r ≡ some (ok, svcs')) × Added svcs (ok, svcs')
    by_search none absent =
        let r : Bool × List Service =
          if leb max_server_services (length svcs)
          then (false, svcs)
          else (true, svcs ++ (new_service p port ∷ [])) in
        (
          r.0,
          r.1,
          refl,
          if_either (Added svcs) (leb max_server_services (length svcs)) _ _ (λ _. (v, λ _. refl))
              (λ h. (
                record {
                  few = ground (arith, length-snoc svcs (new_service p port));
                  services =
                      All-snoc IsService svcs (new_service p port) v.services
                        (new_service-IsService p port);
                  ports = Distinct-snoc svcs (new_service p port) v.ports absent;
                },
                λ f. absurd (cc),
              )),
        )
    by_search (some i) (svc, e, at) =
        let (r, joined, (service, same, kept)) =
          join_lem svc p (All-get IsService svcs i svc v.services e) in
        (
          r.0,
          set svcs i r.1,
          rw (e, joined) refl,
          (
            record {
              few = omega (arith, length-set svcs i r.1, v.few);
              services = All-set IsService svcs i r.1 v.services service;
              ports = Distinct-set svcs i svc r.1 v.ports e same;
            },
            λ f. ap (set svcs i) (kept f) ∙ set-get svcs i svc e,
          ),
        )
