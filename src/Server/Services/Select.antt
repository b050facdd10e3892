-- ===== src/Server/Services/Select.antt =====
-- `service_select_protocol` of src/server/iocp_svcmgr.c.
use kaplarc.Base.{
  ℕ, ◌≡◌, refl, true, false, Option, none, some, List, [], ◌∷◌, ◌++◌, ap, if_either, All,
}
use kaplarc.Server.Services.{Protocol, Service, select_from, service_select_protocol}

-- The first of `ps` that identifies the message, or none of them does.
abbrev pub IsSelected : List ℕ → ℕ → List Protocol → Option Protocol → Type 0
IsSelected input datalen ps none = All (λ p. p.identify input datalen ≡ false) ps
IsSelected input datalen ps (some p) =
    (before : List Protocol) × (rest : List Protocol) × (ps ≡ before ++ (p ∷ rest))
    × All (λ q. q.identify input datalen ≡ false) before
    × (p.identify input datalen ≡ true)

passed_over :
    (input : List ℕ) (datalen : ℕ) (p : Protocol) (ps : List Protocol) (o : Option Protocol)
    → p.identify input datalen ≡ false
    → IsSelected input datalen ps o
    → IsSelected input datalen (p ∷ ps) o
passed_over input datalen p ps none h s = (h, s)
passed_over input datalen p ps (some q) h (before, rest, e, all, owns) =
    (p ∷ before, rest, ap (λ l. p ∷ l) e, (h, all), owns)

select_from_lem :
    (input : List ℕ) (datalen : ℕ) (ps : List Protocol)
    → IsSelected input datalen ps (select_from ps input datalen)
unfolding select_from
select_from_lem input datalen [] = tt
select_from_lem input datalen (p ∷ ps) =
    if_either (IsSelected input datalen (p ∷ ps)) (p.identify input datalen) _ _
      (λ h. ([], ps, refl, tt, h))
      (λ h.
        passed_over input datalen p ps (select_from ps input datalen) h
          (select_from_lem input datalen ps))

-- The protocol that is selected is the first of the service's that identifies the message; NULL
-- is returned exactly when none of them does.
pub service_select_protocol_lem :
    (svc : Service) (input : List ℕ) (datalen : ℕ)
    → IsSelected input datalen svc.protocols (service_select_protocol svc input datalen)
unfolding service_select_protocol
service_select_protocol_lem svc input datalen = select_from_lem input datalen svc.protocols
