-- ===== src/Router/CmdServer/Routes.antt =====
-- What becomes of a command that adds a route, in src/router/cmd-server.cpp.
use f_copss.Router.CmdServer.{
  Done, Outcome, runs_on, connect_tcp, raises, returns, add_route, value, fib_add_to, codes, Router,
  create_udp_face,
}
use f_copss.Router.CmdServer.Platform.{Host}
use f_copss.Ndn.{Ndn}
use f_copss.Boost.{Boost}
use f_copss.Prelude.OrderedSet
use f_copss.Prelude.{
  false, ◌⊎◌, same_endpoints, none, err, if◌then◌else◌, suc, Error, Bool, refl, [], ok, ◌∷◌, some,
  true, ◌≡◌, ℕ, Bytes,
}
use f_copss.Router.FaceManager.{is_at, FaceManager, Endpoints, Face, find_remote}

pub made :
    (same : Bool) (r r' : Router) → (if same then err same_endpoints else ok r) ≡ ok r' → r ≡ r'
made true r r' e = absurd cc
made false r r' e = cc

-- The ends of a socket are those of the type and the remote end asked for.
abbrev pub shows : Bytes → Bytes → ℕ → Endpoints → Bool
shows type ip port ends = is_at type ip port record { id = 0; endpoints = ends }

module _ ⦃boost : Boost⦄ ⦃ndn : Ndn⦄ ⦃host : Host⦄ where
  -- One call of `fibAdd`, by what it finds.
  pub fib_add_to-found :
      (n : ℕ) (name type ip : Bytes) (port cost : ℕ) (router : Router) (face : Face)
      → find_remote type ip port router.faces ≡ some face
      → fib_add_to (suc n) name type ip port cost router
        ≡ value (add_route name face.id cost router)
  unfolding fib_add_to
  fib_add_to-found n name type ip port cost router face e = rw (e, fib_add_to) refl

  -- The three ways in which a call of `fibAdd` ends, and the one in which it never does: the connected
  -- socket shows another remote end than the one asked for.
  abbrev pub Ends : Bytes → Bytes → Bytes → ℕ → ℕ → Router → Outcome Done → Type 0
  Ends name type ip port cost router outcome =
      ((face : Face) × (router' : Router) × (outcome ≡ value (add_route name face.id cost router'))
        × (find_remote type ip port router'.faces ≡ some face)
        × (router' ≡ record router { faces = router'.faces }))
      ⊎ ((type ≡ codes "tcp")
          × (find_remote type ip port router.faces ≡ none)
          × (outcome ≡ value (returns router (connect_tcp name ip port cost ∷ []))))
      ⊎ ((error : Error) × (type ≡ codes "udp")
          × (create_udp_face ip port router ≡ err error)
          × (outcome ≡ value (raises router error)))
      ⊎ ((ends : Endpoints) × (type ≡ codes "udp")
          × (host.udp_connect ip port ≡ ok ends)
          × (shows type ip port ends ≡ false)
          × ((n : ℕ) → fib_add_to n name type ip port cost router ≡ runs_on))
