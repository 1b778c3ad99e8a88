-- ===== src/Network/Laws.antt =====
-- What setting the Wake-on-LAN policy requests, and what it has done when it succeeds.
pub mod Candidates
pub mod Select
use mathlib.Core.List.{append-nil}
use ugreen_nas_hardware.Prelude.{
  ℕ, ◌≡◌, ◌⊎◌, inl, inr, refl, sym, subst, ◌∙◌, ap, arith, true, false, List, [], ◌∷◌, ◌++◌, Option,
  none, some, map, ◌==◌, if◌then◌else◌, Bytes, Result, ok, err, ◌>>=◌, and_then, eio, Bool-cases,
  length,
}
use ugreen_nas_hardware.Prelude.Written.{
  Wrote, Wrote-all, Wrote-nothing, Wrote-refused, Wrote-and_then, and_then-ok,
}
use ugreen_nas_hardware.Network.Pci.{WolCalls}
use ugreen_nas_hardware.Network.{
  WolPolicy, unknown, off, on, WolInfo, WolWorld, query_interface, query_each, read_each, joined,
  policy_of, set_interface, set_each, confirm, set_names, open_interfaces, options_of,
  readback_options, wol_read_policy, wol_read_policy_with_renamed_count,
  wol_set_policy_with_renamed_count,
}

abbrev pub requests : {Net : Type 0} → WolWorld Net → List (Bytes × ℕ)
requests w = w.writes

-- The settings that a policy wants: one for each interface that was opened, in their order.
abbrev settings : ℕ → List Bytes → List (Bytes × ℕ)
settings options names = map (λ (name : Bytes). (name, options)) names

pub planned : Result ℕ → Result (List Bytes) → List (Bytes × ℕ)
planned (err e) opened = []
planned (ok options) (err e) = []
planned (ok options) (ok names) = settings options names

module _ {Net : Type 0} (get_wol : Bytes → Net → Result WolInfo × Net)
    (set_wol : Bytes → ℕ → Net → Result (Unit {0}) × Net) where
  query_interface-writes :
      (name : Bytes) (w : WolWorld Net)
      → (query_interface get_wol set_wol name w).1.writes ≡ w.writes
  unfolding query_interface
  query_interface-writes name w = ground arith

  query_interface-Wrote :
      (name : Bytes) (before : List (Bytes × ℕ)) (w : WolWorld Net)
      → w.writes ≡ before
      → Wrote requests before [] (query_interface get_wol set_wol name w)
  query_interface-Wrote name before w h =
      Wrote-nothing requests before (query_interface get_wol set_wol name w)
        (query_interface-writes name w ∙ h)

  query_each-Wrote :
      (names : List Bytes) (before : List (Bytes × ℕ)) (w : WolWorld Net)
      → w.writes ≡ before
      → Wrote requests before [] (query_each get_wol set_wol names w)
  unfolding query_each
  query_each-Wrote [] before w h = Wrote-nothing requests before (ok tt, w) h
  query_each-Wrote (name ∷ names) before w h =
      Wrote-and_then requests before [] [] (query_interface get_wol set_wol name w) _
        (query_interface-Wrote name before w h)
        (λ _ w' h'. query_each-Wrote names (before ++ []) w' h')

  read_each-Wrote :
      (names : List Bytes) (observed : WolPolicy) (before : List (Bytes × ℕ)) (w : WolWorld Net)
      → w.writes ≡ before
      → Wrote requests before [] (read_each get_wol set_wol names observed w)
  unfolding read_each
  read_each-Wrote [] observed before w h = Wrote-nothing requests before (ok observed, w) h
  read_each-Wrote (name ∷ names) observed before w h =
      Wrote-and_then requests before [] [] (query_interface get_wol set_wol name w) _
        (query_interface-Wrote name before w h)
        (λ info w₁ h₁.
          Wrote-and_then requests (before ++ []) [] [] (joined observed (policy_of info), w₁) _
            (Wrote-nothing requests (before ++ []) (joined observed (policy_of info), w₁) h₁)
            (λ both w₂ h₂. read_each-Wrote names both ((before ++ []) ++ []) w₂ h₂))

  wol_read_policy-Wrote :
      (calls : WolCalls) (interfaces : Option (List (Option Bytes))) (count : ℕ)
      (before : List (Bytes × ℕ)) (w : WolWorld Net)
      → w.writes ≡ before
      → Wrote requests before []
          (wol_read_policy_with_renamed_count get_wol set_wol calls interfaces count w)
  unfolding wol_read_policy_with_renamed_count
  wol_read_policy-Wrote calls interfaces count before w h =
      Wrote-and_then requests before [] [] (open_interfaces calls interfaces count, w) _
        (Wrote-nothing requests before (open_interfaces calls interfaces count, w) h)
        (λ names w' h'. read_each-Wrote names unknown (before ++ []) w' h')

  set_each-Wrote :
      (names : List Bytes) (options : ℕ) (before : List (Bytes × ℕ)) (w : WolWorld Net)
      → w.writes ≡ before
      → Wrote requests before (settings options names) (set_each get_wol set_wol names options w)
  unfolding set_each set_interface
  set_each-Wrote [] options before w h = Wrote-nothing requests before (ok tt, w) h
  set_each-Wrote (name ∷ names) options before w h =
      let one = (name, options) ∷ [] in
      Wrote-and_then requests before one (settings options names)
        (set_interface get_wol set_wol name options w) _
        (Wrote-all requests before one (set_interface get_wol set_wol name options w)
          (ap (λ l. l ++ one) h))
        (λ _ w' h'. set_each-Wrote names options (before ++ one) w' h')

  confirm-Wrote :
      (later : WolCalls) (names : List Bytes) (options : ℕ) (before : List (Bytes × ℕ))
      (w : WolWorld Net)
      → w.writes ≡ before
      → Wrote requests before [] (confirm get_wol set_wol later names options w)
  unfolding confirm wol_read_policy
  confirm-Wrote later names options before w h =
      Wrote-and_then requests before [] []
        (wol_read_policy get_wol set_wol later (some (map some names)) w) _
        (wol_read_policy-Wrote later (some (map some names)) _ before w h)
        (λ policy w' h'. Wrote-nothing requests (before ++ []) _ h')

  set_names-Wrote :
      (later : WolCalls) (names : List Bytes) (options : ℕ) (before : List (Bytes × ℕ))
      (w : WolWorld Net)
      → w.writes ≡ before
      → Wrote requests before
          (settings options names)
          (set_names get_wol set_wol later names options w)
  unfolding set_names
  set_names-Wrote later names options before w h =
      let wanted = settings options names in
      subst (λ plan. Wrote requests before plan (set_names get_wol set_wol later names options w))
        (append-nil wanted)
        (Wrote-and_then requests before [] (wanted ++ []) (query_each get_wol set_wol names w) _
          (query_each-Wrote names before w h)
          (λ _ w₁ h₁.
            Wrote-and_then requests (before ++ []) wanted []
              (set_each get_wol set_wol names options w₁) _
              (set_each-Wrote names options (before ++ []) w₁ h₁)
              (λ _ w₂ h₂. confirm-Wrote later names options ((before ++ []) ++ wanted) w₂ h₂)))

  -- The last reading of the policy on the interfaces that were opened, which ended in the state `w`,
  -- gave a policy with these options.
  pub Confirmed : WolCalls → Result ℕ → Result (List Bytes) → WolWorld Net → Type 0
  Confirmed later wanted opened w =
      (options : ℕ) × (names : List Bytes) × (policy : WolPolicy) × (w' : WolWorld Net) × (wanted
        ≡ ok options)
      × (opened ≡ ok names)
      × (wol_read_policy get_wol set_wol later (some (map some names)) w' ≡ (ok policy, w))
      × (readback_options policy ≡ options)

  same_options :
      (options : ℕ) (policy : WolPolicy)
      → (if readback_options policy == options then ok (tt {0}) else err eio) ≡ ok tt
      → readback_options policy ≡ options
  same_options options policy h = ground arith

  confirm-ok :
      (later : WolCalls) (names : List Bytes) (options : ℕ) (w : WolWorld Net)
      → (confirm get_wol set_wol later names options w).0 ≡ ok tt
      → (policy : WolPolicy) × (wol_read_policy get_wol set_wol later (some (map some names)) w
          ≡ (ok policy, (confirm get_wol set_wol later names options w).1))
        × (readback_options policy ≡ options)
  unfolding confirm
  confirm-ok later names options w h =
      let (policy, w', ends, read) =
        and_then-ok (wol_read_policy get_wol set_wol later (some (map some names)) w) _ tt h in
      (
        policy,
        read ∙ ap (λ (s : WolWorld Net). (ok policy, s)) (sym (ap (λ r. r.1) ends)),
        same_options options policy (sym (ap (λ r. r.0) ends) ∙ h),
      )

  set_names-ok :
      (later : WolCalls) (names : List Bytes) (options : ℕ) (w : WolWorld Net)
      → (set_names get_wol set_wol later names options w).0 ≡ ok tt
      → (policy : WolPolicy) × (w' : WolWorld Net) × (wol_read_policy get_wol set_wol later
            (some (map some names))
            w'
          ≡ (ok policy, (set_names get_wol set_wol later names options w).1))
        × (readback_options policy ≡ options)
  unfolding set_names
  set_names-ok later names options w h =
      let (_, w₁, ends₁, _) = and_then-ok (query_each get_wol set_wol names w) _ tt h in
      let h₁ = sym (ap (λ r. r.0) ends₁) ∙ h in
      let (_, w₂, ends₂, _) = and_then-ok (set_each get_wol set_wol names options w₁) _ tt h₁ in
      let h₂ = sym (ap (λ r. r.0) ends₂) ∙ h₁ in
      let (policy, read, same) = confirm-ok later names options w₂ h₂ in
      (
        policy,
        w₂,
        read ∙ ap (λ (s : WolWorld Net). (ok policy, s)) (sym (ap (λ r. r.1) (ends₁ ∙ ends₂))),
        same,
      )

  -- The end of an attempt to set a policy.
  abbrev pub SetEnds :
      WolCalls
      → Result ℕ
      → Result (List Bytes)
      → WolWorld Net
      → Result (Unit {0}) × WolWorld Net
      → Type 0
  SetEnds later wanted opened w r =
      Wrote requests w.writes (planned wanted opened) r
      × (r.0 ≡ ok tt → Confirmed later wanted opened r.1)

  set_opened :
      (later : WolCalls) (wanted : Result ℕ) (opened : Result (List Bytes)) (w : WolWorld Net)
      → SetEnds later wanted opened w (
          and_then
            (wanted, w)
            (λ options w₁.
              and_then (opened, w₁) (λ names w₂. set_names get_wol set_wol later names options w₂)))
  unfolding planned Confirmed
  set_opened later (err e) opened w =
      (Wrote-refused requests Unit w.writes [] e w refl, λ h. absurd (cc))
  set_opened later (ok options) (err e) w =
      (Wrote-refused requests Unit w.writes [] e w refl, λ h. absurd (cc))
  set_opened later (ok options) (ok names) w = (
    set_names-Wrote later names options w.writes w refl,
    λ h.
        let (policy, w', read, same) = set_names-ok later names options w h in
        (options, names, policy, w', refl, refl, read, same),
  )

  -- Setting the policy, however the network answers. On success the requests are one setting with the
  -- wanted options for each selected interface, in their order and no others, and after them the policy
  -- was read back from all of these interfaces with the wanted options. On any error the requests
  -- are a beginning of these, and none where the policy or the selection is refused.
  pub wol_set_policy-SetEnds :
      (calls later : WolCalls) (interfaces : Option (List (Option Bytes))) (renamed_count : ℕ)
      (policy : WolPolicy) (w : WolWorld Net)
      → SetEnds later (options_of policy) (open_interfaces calls interfaces renamed_count) w (
          wol_set_policy_with_renamed_count get_wol set_wol calls later interfaces renamed_count
            policy w)
  unfolding wol_set_policy_with_renamed_count
  wol_set_policy-SetEnds calls later interfaces renamed_count policy w =
      set_opened later (options_of policy) (open_interfaces calls interfaces renamed_count) w
