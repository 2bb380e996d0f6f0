-- ===== src/Config/Route.antt =====
-- The hops that `Chain::iter` gives (src/config.rs).
use openrussh_client.Prelude.{
  rev, length-rev, ℕ, zero, suc, ◌+◌, List, [], ◌∷◌, ◌++◌, append_assoc, ◌≡◌, refl, sym, ap, ◌∙◌,
  Option, none, some, length, arith,
}
use openrussh_client.Config.{
  Host, Chain, BastionItem, BastionIter, windows, last_of, iter, next, len,
}

abbrev pub some_hosts : Option (List Host) → List Host
some_hosts none = []
some_hosts (some bs) = bs

-- The hosts from the first to connect to on to the target.
abbrev pub route : Chain → List Host
route c = rev (some_hosts c.bastions) ++ c.target ∷ []

abbrev pub head_or : Host → List Host → Host
head_or h [] = h
head_or h (x ∷ xs) = x

-- A hop between each host and the next.
abbrev pub hops : List Host → List BastionItem
hops [] = []
hops (x ∷ []) = []
hops (x ∷ y ∷ xs) = record { from = x; to = y } ∷ hops (y ∷ xs)

-- The items of `next` until it gives none, at most `n`.
abbrev pub collect_step :
    (BastionIter → List BastionItem) → Option BastionItem × BastionIter → List BastionItem
collect_step rest (none, it) = []
collect_step rest (some item, it) = item ∷ rest it

unfoldable pub collect : ℕ → BastionIter → List BastionItem
collect zero it = []
collect (suc n) it = collect_step (collect n) (next it)

unfoldable pub walk : Option BastionIter → List BastionItem
unfolding collect
walk none = []
walk (some it) = collect (suc (len it)) it

abbrev swap_all : List (Host × Host) → List BastionItem
swap_all [] = []
swap_all ((a, b) ∷ ws) = record { from = b; to = a } ∷ swap_all ws

swap-append : (xs ys : List (Host × Host)) → swap_all (xs ++ ys) ≡ swap_all xs ++ swap_all ys
swap-append [] ys = refl
swap-append (x ∷ xs) ys = rw (swap-append xs ys) refl

hops-last :
    (xs : List Host) (x t : Host)
    → hops ((xs ++ x ∷ []) ++ t ∷ []) ≡ hops (xs ++ x ∷ []) ++ record { from = x; to = t } ∷ []
hops-last [] x t = refl
hops-last (a ∷ []) x t = refl
hops-last (a ∷ b ∷ xs) x t = rw (hops-last (b ∷ xs) x t) refl

hops-rev :
    (b : Host) (bs : List Host) (t : Host)
    → hops (rev (b ∷ bs) ++ t ∷ [])
      ≡ swap_all (rev (windows (b ∷ bs))) ++ record { from = b; to = t } ∷ []
hops-rev b [] t = refl
hops-rev b (c ∷ bs) t =
    hops-last (rev (c ∷ bs)) b t
    ∙ rw (hops-rev c bs b, swap-append (rev (windows (c ∷ bs))) ((b, c) ∷ [])) refl

collect-windows :
    (item : BastionItem) (ws : List (Host × Host)) (n : ℕ)
    → n ≡ length ws + 2
    → collect n (record { final_target = some item; bastions = ws }) ≡ swap_all ws ++ item ∷ []
unfolding collect next
collect-windows item ws zero h = absurd (omega arith)
collect-windows item [] (suc zero) h = absurd (omega arith)
collect-windows item [] (suc (suc n)) h = refl
collect-windows item ((a, b) ∷ ws) (suc n) h = rw (collect-windows item ws n (omega arith)) refl

head-rev : (h b : Host) (bs ys : List Host) → head_or h (rev (b ∷ bs) ++ ys) ≡ last_of b bs
head-rev h b [] ys = refl
head-rev h b (c ∷ bs) ys =
    ap (λ l. head_or h l) (append_assoc (rev (c ∷ bs)) (b ∷ []) ys) ∙ head-rev h c bs (b ∷ ys)

length-windows : (b : Host) (bs : List Host) → length (windows (b ∷ bs)) ≡ length bs
length-windows b [] = refl
length-windows b (c ∷ bs) = ap suc (length-windows c bs)

abbrev pub len_some : Option BastionIter → ℕ
len_some none = 0
len_some (some it) = len it

walk-hops :
    (target : Host) (bs : Option (List Host))
    → walk (iter (record { target = target; bastions = bs })).1
      ≡ hops (rev (some_hosts bs) ++ target ∷ [])
unfolding walk iter len
walk-hops target none = refl
walk-hops target (some []) = refl
walk-hops target (some (b ∷ bs)) =
    collect-windows (record { from = b; to = target }) (rev (windows (b ∷ bs)))
      (suc (length (rev (windows (b ∷ bs))) + 1)) (omega arith)
    ∙ sym (hops-rev b bs target)

first-head :
    (target : Host) (bs : Option (List Host))
    → (iter (record { target = target; bastions = bs })).0
      ≡ head_or target (rev (some_hosts bs) ++ target ∷ [])
unfolding iter
first-head target none = refl
first-head target (some []) = refl
first-head target (some (b ∷ bs)) = sym (head-rev target b bs (target ∷ []))

len-bastions :
    (target : Host) (bs : Option (List Host))
    → len_some (iter (record { target = target; bastions = bs })).1 ≡ length (some_hosts bs)
unfolding iter len
len-bastions target none = refl
len-bastions target (some []) = refl
len-bastions target (some (b ∷ bs)) =
    omega (arith, length-rev (windows (b ∷ bs)), length-windows b bs)

-- `Chain::iter` gives the first host of the way to the target, and an iterator that has as many items
-- as there are bastions: one for each hop of the way in order, each from where the last one led.
pub iter-route :
    (c : Chain)
    → ((iter c).0 ≡ head_or c.target (route c))
      × (walk (iter c).1 ≡ hops (route c))
      × (len_some (iter c).1 ≡ length (some_hosts c.bastions))
iter-route c = (
  first-head c.target c.bastions,
  walk-hops c.target c.bastions,
  len-bastions c.target c.bastions,
)
