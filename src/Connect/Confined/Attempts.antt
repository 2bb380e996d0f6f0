-- ===== src/Connect/Confined/Attempts.antt =====
-- What the methods of a configuration may use, and what a sequence of attempts keeps (src/connect.rs).
use openrussh_client.Prelude.{List, [], ◌∷◌, ◌≡◌, some, All, All-before}
use openrussh_client.Prelude.Keeps.{Keeps}
use mathlib.Core.List.{Mem}
use openrussh_client.Auth.{
  local_priv, local_cert, full, agent_priv, agent_pub, agent_cert_priv, agent_cert_pub, AuthMethod,
  no_auth, local, agent, AuthConfig,
}
use openrussh_client.Auth.KeyFile.{Files}
use openrussh_client.Auth.Reply.{Tried}
use openrussh_client.Auth.Loop.{Fail, DecidedBy}
use openrussh_client.Auth.Listed.{some_items}
use openrussh_client.Auth.Configured.{IsAllowed}
use openrussh_client.Auth.Session.Confined.{Allowed, IsWithin}

-- The files and the socket that a configuration names.
abbrev pub configured : AuthConfig → Allowed
configured auth = record {
  Key = λ path. Mem path (some_items auth.identities);
  Cert = λ path. auth.cert ≡ some path;
  Socket = λ path. auth.agent ≡ some path;
}

pub IsAllowed-IsWithin :
    (files : Files) (auth : AuthConfig) (m : AuthMethod)
    → IsAllowed files auth m
    → IsWithin (configured auth) m
IsAllowed-IsWithin files auth no_auth a = tt
IsAllowed-IsWithin files auth (local (local_priv i)) a = a.0
IsAllowed-IsWithin files auth (local (local_cert c i)) a = (a.2, a.0)
IsAllowed-IsWithin files auth (agent s full) a = (a.0, tt)
IsAllowed-IsWithin files auth (agent s (agent_priv i)) a = (a.0, a.1.1.0)
IsAllowed-IsWithin files auth (agent s (agent_pub i)) a = (a.0, a.1.1.0)
IsAllowed-IsWithin files auth (agent s (agent_cert_priv c i)) a = (a.0, (a.1.1.2, a.1.1.0))
IsAllowed-IsWithin files auth (agent s (agent_cert_pub c i)) a = (a.0, (a.1.1.2, a.1.1.0))

pub kept_to :
    {S B : Type 0} {P : S → Type 0} {m : S → B × S} {s : S} {b : B} {t : S}
    → Keeps P m
    → m s ≡ (b, t)
    → P s
    → P t
kept_to {s = s} k e h = rw e at (k.at s h)

module _ {S X : Type 0} (P : S → Type 0) (try_one : X → S → Tried × S) where
  pub Fail-keeps :
      (xs : List X)
      → All (λ x. Keeps P (try_one x)) xs
      → (s t : S) → Fail try_one xs s t
      → P s
      → P t
  Fail-keeps [] k s t e h = rw e at h
  Fail-keeps (x ∷ xs) (k, ks) s t (u, e, f) h = Fail-keeps xs ks u t f (kept_to k e h)

  pub DecidedBy-keeps :
      (xs : List X) (s : S) (r : Tried × S)
      → All (λ x. Keeps P (try_one x)) xs
      → DecidedBy try_one xs s r
      → P s
      → P r.1
  DecidedBy-keeps xs s r k (before, x, after, t, e, f, run, n) h =
      let parts = All-before (λ x. Keeps P (try_one x)) before x after (rw e at k) in
      kept_to parts.1 run (Fail-keeps before parts.0 s t f h)
