-- ===== src/Auth/Agent/Offers.antt =====
-- Which identities `all_in_agent` offers to the server (src/auth.rs).
use openrussh_client.Prelude.{ok, List, [], ◌∷◌, ◌≡◌, refl, ap, true, false, fun_ext}
use openrussh_client.Auth.Loop.{go_on, try_each, Outcome, try_each-Outcome}
use openrussh_client.Auth.Agent.{
  Identity, public_key, certificate, Peer, auth_by_agent, agent_loop, all_in_agent,
}

-- Keys and users' certificates.
abbrev pub offered : List Identity → List Identity
offered [] = []
offered (public_key a k ∷ ids) = public_key a k ∷ offered ids
offered (certificate false a k ∷ ids) = offered ids
offered (certificate true a k ∷ ids) = certificate true a k ∷ offered ids

module _ {S : Type 0} (peer : Peer S) where
  pub loop-try_each :
      (ids : List Identity) (s : S)
      → agent_loop peer ids s ≡ try_each (auth_by_agent peer) (offered ids) s
  unfolding agent_loop try_each
  loop-try_each [] s = refl
  loop-try_each (public_key a k ∷ ids) s =
      ap (λ r. go_on r (auth_by_agent peer (public_key a k) s)) (fun_ext (loop-try_each ids))
  loop-try_each (certificate false a k ∷ ids) s = loop-try_each ids s
  loop-try_each (certificate true a k ∷ ids) s =
      ap (λ r. go_on r (auth_by_agent peer (certificate true a k) s)) (fun_ext (loop-try_each ids))

  -- Where the agent lists its identities, `all_in_agent` either fails, after every identity that is a
  -- key or a user's certificate has been offered in order and has failed, or returns the success or the
  -- error of one of them, after those in front of it have been offered in order and have failed, and
  -- none behind it is offered. No other certificate is offered.
  pub all_in_agent-Outcome :
      (s t : S) (ids : List Identity)
      → peer.request_identities s ≡ (ok ids, t)
      → Outcome (auth_by_agent peer) (offered ids) t (all_in_agent peer s)
  unfolding all_in_agent
  all_in_agent-Outcome s t ids h =
      rw (h, loop-try_each ids t) (try_each-Outcome (auth_by_agent peer) (offered ids) t)
