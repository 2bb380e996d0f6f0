-- ===== src/Connect/Identities.antt =====
-- The files whose first bytes a connection depends on: src/connect.rs with src/auth.rs.
use openrussh_client.Prelude.{
  List, [], ◌∷◌, ◌≡◌, refl, rev, Option, none, some, All, All-before, M, fun_ext,
}
use openrussh_client.Config.{Host, Chain, BastionItem, BastionIter}
use openrussh_client.Config.{iter as iter_chain}
use openrussh_client.Config.Route.{route, walk, hops, head_or, some_hosts, iter-route}
use openrussh_client.Auth.KeyFile.{Files}
use openrussh_client.Auth.Listed.{some_items}
use openrussh_client.Auth.Identities.{SameFirst, from_config-same}
use openrussh_client.Connect.{
  Context, Network, auth, connect, connect_stream, first_handle, next_handle, bastion_loop,
  connect_by, connect_impl,
}

-- The first bytes of the identities of a host are the same.
abbrev pub SameAt : Files → Files → Host → Type 0
SameAt files others x = SameFirst files others (some_items x.auth.identities)

All-hops :
    (P : Host → Type 0) (xs : List Host) → All P xs → All (λ (b : BastionItem). P b.to) (hops xs)
All-hops P [] a = tt
All-hops P (x ∷ []) a = tt
All-hops P (x ∷ y ∷ xs) (a, rest) = (rest.0, All-hops P (y ∷ xs) rest)

head_or-All : (P : Host → Type 0) (x : Host) (xs : List Host) → P x → All P xs → P (head_or x xs)
head_or-All P x [] p a = p
head_or-All P x (y ∷ xs) p a = a.0

module _ {S K O H C A E R F : Type 0} (net : Network S K O H C A E R)
    (make_handler : Host → M S F (Context K O)) (others : Files) where
  -- The network with other files for the first bytes.
  abbrev pub with_files : Network S K O H C A E R
  with_files = record net { files = others }

  first_handle-same :
      (x : Host)
      → SameAt net.files others x
      → first_handle net make_handler x ≡ first_handle with_files make_handler x
  unfolding first_handle connect auth
  first_handle-same x same = rw (from_config-same net.files others x.auth same) refl

  next_handle-same :
      (h : H) (b : BastionItem)
      → SameAt net.files others b.to
      → next_handle net make_handler h b ≡ next_handle with_files make_handler h b
  unfolding next_handle connect_stream auth
  next_handle-same h b same = rw (from_config-same net.files others b.to.auth same) refl

  bastion_loop-same :
      (it : List BastionItem)
      → All (λ (b : BastionItem). SameAt net.files others b.to) it
      → (h : H) → bastion_loop net make_handler it h ≡ bastion_loop with_files make_handler it h
  unfolding bastion_loop
  bastion_loop-same [] a h = refl
  bastion_loop-same (b ∷ it) (a, rest) h =
      rw (next_handle-same h b a, fun_ext (bastion_loop-same it rest)) refl

  connect_by-same :
      (p : Host × Option BastionIter)
      → SameAt net.files others p.0
      → All (λ (b : BastionItem). SameAt net.files others b.to) (walk p.1)
      → connect_by net make_handler p ≡ connect_by with_files make_handler p
  unfolding connect_by
  connect_by-same (first, none) same rest = first_handle-same first same
  connect_by-same (first, some it) same rest =
      rw (first_handle-same first same, fun_ext (bastion_loop-same (walk (some it)) rest)) refl

  -- A connection depends on the first bytes of the identities of its hosts alone.
  pub connect_impl-same :
      (c : Chain)
      → All (SameAt net.files others) (route c)
      → connect_impl net make_handler c ≡ connect_impl with_files make_handler c
  unfolding connect_impl
  connect_impl-same c same =
      let way = iter-route c in
      let last =
        All-before (SameAt net.files others) (rev (some_hosts c.bastions)) c.target [] same in
      rw
        (connect_by-same (iter_chain c)
          (rw way.0 (head_or-All (SameAt net.files others) c.target (route c) last.1 same))
          (rw way.1 (All-hops (SameAt net.files others) (route c) same)))
        refl
