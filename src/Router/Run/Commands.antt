-- ===== src/Router/Run/Commands.antt =====
-- The control commands of src/router/cmd-server.cpp keep a router sound.
use f_copss.Router.CmdServer.Routes.{fib_add_to-found, made}
use f_copss.Prelude.Outcome.{value}
use f_copss.Prelude.Text.{codes}
use f_copss.Router.CmdServer.Reader.{CmdArg}
use f_copss.Cd.Equality.{equals}
use f_copss.Router.Run.Sound.{created-IsSound, IsLive-addition, pruned-IsSound, IsSound}
use f_copss.Router.Fib.{Fib}
use f_copss.Cd.{Cd}
use f_copss.Router.CmdServer.{
  receive, reply_err, add_args, connect_tcp, is_same_end, raises, returns, handle_connect, fib_add,
  fib_add_to, create_udp_face, cast, is_type, is_empty, at_or_empty, fib_del, fib_del_hop,
  fib_del_name, try, add_route, Done,
}
use f_copss.Router.Forwarder.{Router}
use f_copss.Router.CmdServer.Platform.{Host}
use f_copss.Ndn.{Ndn}
use f_copss.Boost.{Boost}
use f_copss.Prelude.{
  zero, ◌∙◌, same_endpoints, sym, Result-cases, suc, bind-eq-ok, Error, bytes_eq, ◌<◌, ◌+◌, ◌^◌,
  not, ◌==◌, Option-cases, ◌&&◌, ap, arith, refl, [], subst, false, inr, err, true, inl, Bool-cases,
  ok, if◌then◌else◌, ◌∷◌, some, Result, none, ◌≡◌, Bool, List, ℕ, Bytes,
}
use f_copss.Router.FaceManager.{Endpoints, is_at, face_id, Face, FaceManager, first_at}
use f_copss.Router.FaceManager
use f_copss.Router.FaceManager.Ids
use f_copss.Router.Fib
use f_copss.Router.Fib.Effects
use f_copss.Prelude.OrderedSet

-- The face that is found at a remote end is in the table under its id.
first_at-find_id :
    (type ip : Bytes) (port : ℕ) (faces : List Face) (face : Face)
    → OrderedSet.IsAscending face_id faces
    → first_at type ip port faces ≡ some face
    → OrderedSet.find face_id face.id faces ≡ some face
unfolding first_at OrderedSet.find
first_at-find_id type ip port [] face sorted e = absurd cc
first_at-find_id type ip port (x ∷ faces) face (above, sorted) e =
    elim (Bool-cases (is_at type ip port x)) [
      | inl here ↦ let same : x ≡ face = ground arith in let ids = ap face_id same in ground arith
      | inr other ↦
          let behind = first_at-find_id type ip port faces face sorted (ground arith) in
          let l = OrderedSet.find-Above face_id x.id face.id faces face above behind in ground arith
    ]

find_remote-find :
    (type ip : Bytes) (port : ℕ) (manager : FaceManager) (face : Face)
    → Ids.IsWellFormed manager
    → FaceManager.find_remote type ip port manager ≡ some face
    → FaceManager.find face.id manager ≡ some face
unfolding FaceManager.find FaceManager.find_remote
find_remote-find type ip port manager face w e =
    first_at-find_id type ip port manager.face_table face w.ascending e

module _ ⦃boost : Boost⦄ ⦃ndn : Ndn⦄ ⦃host : Host⦄ where
  if-IsSound :
      (b : Bool) (x y : Done)
      → IsSound x.router
      → IsSound y.router
      → IsSound (if b then x else y).router
  if-IsSound true x y s t = s
  if-IsSound false x y s t = t

  try-IsSound {ℓ} :
      {A : Type ℓ} (r : Router) (result : Result A) (next : A → Done)
      → IsSound r
      → ((a : A) → result ≡ ok a → IsSound (next a).router)
      → IsSound (try r result next).router
  try-IsSound r (err error) next s t = s
  try-IsSound r (ok a) next s t = t a refl

  -- An operation on a name that takes routes away.
  Updates-IsSound :
      (r : Router) (name : Bytes) (hit : Cd → Cd → ℕ → Bool) (result : Result Fib) (fib : Fib)
      → Effects.Updates r.fib name hit none result
      → result ≡ ok fib
      → IsSound r
      → IsSound (record r { fib = fib })
  Updates-IsSound r name hit result fib (inl (error, bad, raised)) e s = absurd cc
  Updates-IsSound r name hit result fib (inr (cd, fib', parsed, gave, u)) e s =
      let same : fib' ≡ fib = cc in
      subst (λ x. IsSound (record r { fib = x })) same (pruned-IsSound r fib' (hit cd) u s)

  added-IsSound :
      (r : Router) (name : Bytes) (cost : ℕ) (face : Face) (fib : Fib)
      → FaceManager.find face.id r.faces ≡ some face
      → Effects.Updates r.fib name
          (λ cd c k. equals cd c && face.id == k)
          (some (record { face_id = face.id; cost = cost }))
          (Fib.add name face.id cost r.fib)
      → Fib.add name face.id cost r.fib ≡ ok fib
      → IsSound r
      → IsSound (record r { fib = fib })
  added-IsSound r name cost face fib there (inl (error, bad, raised)) e s = absurd cc
  added-IsSound r name cost face fib there (inr (cd, fib', parsed, gave, u)) e s =
      let same : fib' ≡ fib = cc in
      subst (λ x. IsSound (record r { fib = x })) same
        (record {
          routes = u.well_formed;
          subscriptions = s.subscriptions;
          matchable = s.matchable;
          faces = s.faces;
          routes_live =
              IsLive-addition Fib.hop_face r.faces r.fib fib' cd face.id _ face u there
                s.routes_live;
          subscriptions_live = s.subscriptions_live;
        })

  add_route-IsSound :
      (r : Router) (name : Bytes) (cost : ℕ) (face : Face)
      → FaceManager.find face.id r.faces ≡ some face
      → IsSound r
      → IsSound (add_route name face.id cost r).router
  add_route-IsSound r name cost face there s =
      try-IsSound r (Fib.add name face.id cost r.fib) _ s λ fib added.
        added-IsSound r name cost face fib there
          (Effects.add-Updates r.fib s.routes name face.id cost) added s

  fib_del_name-IsSound :
      (r : Router) (name : Bytes) → IsSound r → IsSound (fib_del_name name r).router
  fib_del_name-IsSound r name s = try-IsSound r (Fib.remove_name name r.fib) _ s λ fib removed.
      Updates-IsSound r name _ _ fib (Effects.remove-Updates r.fib s.routes name 0).1 removed s

  fib_del_hop-IsSound :
      (r : Router) (name type ip : Bytes) (port : ℕ)
      → IsSound r
      → IsSound (fib_del_hop name type ip port r).router
  fib_del_hop-IsSound r name type ip port s =
      elim (Option-cases (FaceManager.find_remote type ip port r.faces)) [
        | inl e ↦ rw (e, fib_del_hop) s
        | inr (face, e) ↦
            rw (e, fib_del_hop)
              (try-IsSound r (Fib.remove_hop name face.id r.fib) _ s λ fib removed.
                Updates-IsSound r name _ _ fib
                  (Effects.remove-Updates r.fib s.routes name face.id).0 removed s)
      ]

  pub fib_del-IsSound : (r : Router) (arg : CmdArg) → IsSound r → IsSound (fib_del arg r).router
  unfolding fib_del
  fib_del-IsSound r arg s =
      let name = at_or_empty (codes "NAME") arg in
      let type = at_or_empty (codes "TYPE") arg in
      let ip = at_or_empty (codes "IP") arg in
      let port = at_or_empty (codes "PORT") arg in
      if-IsSound (is_empty name) _ _ s (
        if-IsSound (is_empty type && is_empty ip && is_empty port) _ _
          (fib_del_name-IsSound r name s)
          (if-IsSound (not (is_empty type) && not (is_empty ip) && not (is_empty port)) _ _
            (if-IsSound (not (is_type type)) _ _ s (
              try-IsSound r (cast (2 ^ 16) port) _ s λ p _. fib_del_hop-IsSound r name type ip p s))
            s))

  create_udp_face-IsSound :
      (ip : Bytes) (port : ℕ) (r r' : Router)
      → r.faces.face_serial + 1 < 2 ^ 64
      → create_udp_face ip port r ≡ ok r'
      → IsSound r
      → IsSound r' × (r'.faces.face_serial ≡ r.faces.face_serial + 1)
  unfolding create_udp_face FaceManager.create_face
  create_udp_face-IsSound ip port r r' l e s =
      let (ends, bound, e₁) = bind-eq-ok (host.udp_connect ip port) _ e in
      let same =
        made (is_same_end ends) (record r { faces = (FaceManager.create_face ends r.faces).0 }) r'
          e₁ in
      subst (λ x. IsSound x × (x.faces.face_serial ≡ r.faces.face_serial + 1)) same
        (created-IsSound ends r l s, omega arith)

  fib_add_to-none :
      (n : ℕ) (name type ip : Bytes) (port cost : ℕ) (r : Router)
      → FaceManager.find_remote type ip port r.faces ≡ none
      → bytes_eq type (codes "tcp") ≡ true
      → fib_add_to (suc n) name type ip port cost r
        ≡ value (returns r (connect_tcp name ip port cost ∷ []))
  unfolding fib_add_to
  fib_add_to-none n name type ip port cost r e tcp = rw (e, fib_add_to, tcp) refl

  fib_add_to-failed :
      (n : ℕ) (name type ip : Bytes) (port cost : ℕ) (r : Router) (error : Error)
      → FaceManager.find_remote type ip port r.faces ≡ none
      → bytes_eq type (codes "tcp") ≡ false
      → create_udp_face ip port r ≡ err error
      → fib_add_to (suc n) name type ip port cost r ≡ value (raises r error)
  unfolding fib_add_to
  fib_add_to-failed n name type ip port cost r error e other f = rw (e, fib_add_to, other, f) refl

  fib_add_to-made :
      (n : ℕ) (name type ip : Bytes) (port cost : ℕ) (r r' : Router)
      → FaceManager.find_remote type ip port r.faces ≡ none
      → bytes_eq type (codes "tcp") ≡ false
      → create_udp_face ip port r ≡ ok r'
      → fib_add_to (suc n) name type ip port cost r
        ≡ fib_add_to n name (codes "udp") ip port cost r'
  unfolding fib_add_to
  fib_add_to-made n name type ip port cost r r' e other f = rw (e, fib_add_to, other, f) refl

  pub fib_add_to-IsSound :
      (n : ℕ) (name type ip : Bytes) (port cost : ℕ) (r : Router) (done : Done)
      → r.faces.face_serial + n < 2 ^ 64
      → fib_add_to n name type ip port cost r ≡ value done
      → IsSound r
      → IsSound done.router
  fib_add_to-IsSound zero name type ip port cost r done l e s = absurd (unfold fib_add_to in cc)
  fib_add_to-IsSound (suc n) name type ip port cost r done l e s =
      elim (Option-cases (FaceManager.find_remote type ip port r.faces)) [
        | inr (face, found) ↦
            let same : add_route name face.id cost r ≡ done =
              let known = fib_add_to-found n name type ip port cost r face found in cc in
            subst (λ x. IsSound x.router) same
              (add_route-IsSound r name cost face
                (find_remote-find type ip port r.faces face s.faces found) s)
        | inl e₁ ↦ elim (Bool-cases (bytes_eq type (codes "tcp"))) [
          | inl tcp ↦
              let same : returns r (connect_tcp name ip port cost ∷ []) ≡ done =
                let known = fib_add_to-none n name type ip port cost r e₁ tcp in cc in
              subst (λ x. IsSound x.router) same s
          | inr other ↦ elim (Result-cases (create_udp_face ip port r)) [
            | inl (error, f) ↦
                let same : raises r error ≡ done =
                  let known = fib_add_to-failed n name type ip port cost r error e₁ other f in cc in
                subst (λ x. IsSound x.router) same s
            | inr (r', f) ↦
                let (s', serial) = create_udp_face-IsSound ip port r r' (omega arith) f s in
                fib_add_to-IsSound n name (codes "udp") ip port cost r' done (omega arith)
                  (sym (fib_add_to-made n name type ip port cost r r' e₁ other f) ∙ e) s'
          ]
        ]
      ]

  pub fib_add-IsSound :
      (arg : CmdArg) (r : Router) (done : Done)
      → r.faces.face_serial + 2 < 2 ^ 64
      → fib_add arg r ≡ value done
      → IsSound r
      → IsSound done.router
  unfolding fib_add
  fib_add-IsSound arg r done l e s = elim (Result-cases (add_args arg)) [
    | inl (error, bad) ↦
        let same : raises r error ≡ done =
          let known : fib_add arg r ≡ value (raises r error) = rw (bad, fib_add) refl in cc in
        subst (λ x. IsSound x.router) same s
    | inr ((name, type, ip, port, cost), good) ↦
        let known : fib_add arg r ≡ fib_add_to 2 name type ip port cost r =
          rw (good, fib_add) refl in
        fib_add_to-IsSound 2 name type ip port cost r done l (sym known ∙ e) s
  ]

  pub handle_connect-IsSound :
      (name ip : Bytes) (port cost : ℕ) (endpoints : Endpoints) (r : Router) (done : Done)
      → r.faces.face_serial + 3 < 2 ^ 64
      → handle_connect name ip port cost endpoints r ≡ value done
      → IsSound r
      → IsSound done.router
  unfolding handle_connect FaceManager.create_face
  handle_connect-IsSound name ip port cost endpoints r done l e s =
      elim (Bool-cases (is_same_end endpoints)) [
        | inl here ↦
            let same : returns r (reply_err same_endpoints ∷ receive ∷ []) ≡ done =
              let known = rw here at e in cc in
            subst (λ x. IsSound x.router) same s
        | inr there ↦
            fib_add_to-IsSound 2 name (codes "tcp") ip port cost
              (record r { faces = (FaceManager.create_face endpoints r.faces).0 }) done
              (omega arith) (rw there at e) (created-IsSound endpoints r (omega arith) s)
      ]
