-- ===== src/Rtctrl/Commands/FileEnds.antt =====
-- The loops of `rtctrl fibadd -f FILE` in src/rtctrl/cmd-fibadd.cpp come to an end.
use f_copss.Router.CmdServer.Platform.{Host}
use f_copss.Cd.Printer.{ComponentUri}
use f_copss.Rtctrl.Commands.{parse_from_arg}
use f_copss.Ndn.{Ndn}
use f_copss.Router.CmdServer.Reader.{is_space}
use f_copss.Rtctrl.Arguments.{Network, to_string}
use f_copss.Prelude.Text.{codes}
use f_copss.Prelude.{
  ◌>>=◌, drop, [], false, length, true, not, ◌∷◌, if◌then◌else◌, List, Bool, refl, zero, bytes_eq,
  ◌%◌, inr, bad_argument, sym, Option-cases, inl, suc, ◌==◌, arith, Bool-cases, ◌^◌, ◌+◌, some, err,
  none, ◌<◌, ◌∙◌, ◌≡◌, ◌≤◌, ap, ok, ◌++◌, ℕ, Bytes, Result,
}
use f_copss.Boost.{Boost}
use f_copss.Rtctrl.Commands.FibFile.{
  parse_option, first_word, get_numbered, parse_from_file, route_request, IniParser, get_list,
  fib_add_parse, route_requests, hop_requests, and_ok, find_type_remote, Tree,
}
use f_copss.Prelude.Outcome.{value, Outcome}

-- The call returns, or raises an `Error`.
abbrev pub Returns {ℓ} : {A : Type ℓ} → Outcome (Result A) → Type ℓ
Returns {A = A} o = (r : Result A) × (o ≡ value r)

-- A number behind the key is missing.
abbrev pub IsMissing : Tree → Bytes → ℕ → Type 0
IsMissing tree key k = (tree (key ++ to_string k) ≡ none) × (k < 2 ^ 16)

and_ok-Returns {ℓ κ} :
    {A : Type ℓ} {B : Type κ} (o : Outcome (Result A)) (next : A → Outcome (Result B))
    → Returns o
    → ((a : A) → Returns (next a))
    → Returns (and_ok o next)
and_ok-Returns o next (ok a, e) f = let (r, g) = f a in (r, ap (λ x. and_ok x next) e ∙ g)
and_ok-Returns o next (err error, e) f = (err error, ap (λ x. and_ok x next) e)

-- A number that is there is not the one that is missing.
still_before :
    (tree : Tree) (key text : Bytes) (x k : ℕ)
    → tree (key ++ to_string x) ≡ some text
    → IsMissing tree key k
    → x ≤ k
    → x < k
still_before tree key text x k there (missing, below) l = elim (Bool-cases (x == k)) [
  | inl same ↦
      let e : x ≡ k = ground arith in
      let there' = ap (λ n. tree (key ++ to_string n)) (sym e) ∙ there in absurd cc
  | inr other ↦ ground arith
]

module _ ⦃boost : Boost⦄ where
  find_type_remote-Returns :
      (n x k : ℕ) (face : Bytes) (tree : Tree)
      → IsMissing tree (codes "FACES.FaceId") k
      → x ≤ k
      → k < x + n
      → Returns (find_type_remote n x face tree)
  unfolding find_type_remote
  find_type_remote-Returns zero x k face tree m l b = absurd (omega arith)
  find_type_remote-Returns (suc n) x k face tree m l b =
      elim (Option-cases (tree (codes "FACES.FaceId" ++ to_string x))) [
        | inl e ↦ (err bad_argument, rw (e, find_type_remote) refl)
        | inr (id, e) ↦
            let before = still_before tree (codes "FACES.FaceId") id x k e m l in
            let (r, later) =
              find_type_remote-Returns n ((x + 1) % 2 ^ 16) k face tree m (omega (arith, m.1))
                (omega (arith, m.1)) in
            elim (Bool-cases (bytes_eq face (boost.trim_if is_space id))) [
              | inl same ↦ (
                (get_numbered (codes "FACES.Protocol") x tree >>= λ type.
                    get_numbered (codes "FACES.Remote") x tree >>= λ remote. ok (type, remote)),
                rw (e, find_type_remote, same) refl,
              )
              | inr other ↦ (r, rw (e, find_type_remote, other) later)
            ]
      ]

module _ ⦃ndn : Ndn⦄ ⦃boost : Boost⦄ ⦃uri : ComponentUri⦄ ⦃network : Network⦄ ⦃host : Host⦄
    (router_port : ℕ) where
  hop_requests-Returns :
      (rounds k : ℕ) (name : Bytes) (tree : Tree) (faces costs : List Bytes)
      → IsMissing tree (codes "FACES.FaceId") k
      → k < rounds
      → Returns (hop_requests router_port rounds name tree faces costs)
  unfolding hop_requests
  hop_requests-Returns rounds k name tree [] costs m l = (ok [], refl)
  hop_requests-Returns rounds k name tree (face ∷ faces) [] m l = (ok [], refl)
  hop_requests-Returns rounds k name tree (face ∷ faces) (cost ∷ costs) m l =
      and_ok-Returns (find_type_remote rounds 0 face tree) _
        (find_type_remote-Returns rounds 0 k face tree m (omega arith) (omega arith))
        λ ends.
          and_ok-Returns (value (route_request router_port name ends cost)) _
            (route_request router_port name ends cost, refl)
            λ request.
              and_ok-Returns (hop_requests router_port rounds name tree faces costs) _
                (hop_requests-Returns rounds k name tree faces costs m l)
                λ requests. (ok (request ∷ requests), refl)

  if-Returns {ℓ} :
      {A : Type ℓ} (b : Bool) (x y : Outcome (Result A))
      → Returns x
      → Returns y
      → Returns (if b then x else y)
  if-Returns true x y r s = r
  if-Returns false x y r s = s

  route_requests-Returns :
      (rounds k n x j : ℕ) (tree : Tree)
      → IsMissing tree (codes "FACES.FaceId") k
      → k < rounds
      → IsMissing tree (codes "FIB.Name") j
      → x ≤ j
      → j < x + n
      → Returns (route_requests router_port rounds n x tree)
  unfolding route_requests
  route_requests-Returns rounds k zero x j tree m r mj l b = absurd (omega arith)
  route_requests-Returns rounds k (suc n) x j tree m r mj l b =
      elim (Option-cases (tree (codes "FIB.Name" ++ to_string x))) [
        | inl e ↦ ((if x == 0 then err bad_argument else ok []), rw (e, route_requests) refl)
        | inr (name, e) ↦
            let before = still_before tree (codes "FIB.Name") name x j e mj l in
            let later =
              route_requests-Returns rounds k n ((x + 1) % 2 ^ 16) j tree m r mj
                (omega (arith, mj.1)) (omega (arith, mj.1)) in
            rw (e, route_requests)
              (and_ok-Returns (value (get_list (codes "FIB.NextHop") x tree)) _ (_, refl)
                λ faces.
                  and_ok-Returns (value (get_list (codes "FIB.Cost") x tree)) _ (_, refl)
                    λ costs.
                      if-Returns (not (length faces == length costs)) _ _ (err bad_argument, refl)
                        (and_ok-Returns (hop_requests router_port rounds name tree faces costs) _
                          (hop_requests-Returns rounds k name tree faces costs m r)
                          λ requests.
                            and_ok-Returns
                              (route_requests router_port rounds n ((x + 1) % 2 ^ 16) tree) _ later
                              λ others. (ok (requests ++ others), refl)))
      ]

  -- The two ends of a file.
  abbrev pub HasEnds : Tree → Type 0
  HasEnds tree =
      ((k : ℕ) × IsMissing tree (codes "FACES.FaceId") k)
      × ((j : ℕ) × IsMissing tree (codes "FIB.Name") j)

  parse_from_file-Returns :
      ⦃ini : IniParser⦄ (path : Bytes)
      → ((tree : Tree) → ini.read_ini path ≡ some tree → HasEnds tree)
      → Returns (parse_from_file router_port (2 ^ 16) path)
  unfolding parse_from_file
  parse_from_file-Returns ⦃ini⦄ path ends = elim (Option-cases (ini.read_ini path)) [
    | inl e ↦ (err bad_argument, rw (e, parse_from_file) refl)
    | inr (tree, e) ↦
        let ((k, m), (j, mj)) = ends tree e in
        rw (e, parse_from_file)
          (and_ok-Returns (route_requests router_port (2 ^ 16) (2 ^ 16) 0 tree) _
            (route_requests-Returns (2 ^ 16) k (2 ^ 16) 0 j tree m (omega (arith, m.1)) mj
              (omega arith) (omega (arith, mj.1)))
            λ requests. (ok (record { cmd = codes "FIB-DEL"; param = [] } ∷ requests), refl))
  ]

  parse_option-Returns :
      ⦃ini : IniParser⦄ (options : List Bytes)
      → ((path : Bytes) (tree : Tree) → ini.read_ini path ≡ some tree → HasEnds tree)
      → Returns (parse_option router_port (2 ^ 16) options)
  unfolding parse_option
  parse_option-Returns [] ends = (err bad_argument, refl)
  parse_option-Returns (option ∷ rest) ends =
      if-Returns (not (bytes_eq option (codes "-f"))) _ _ (err bad_argument, refl)
        (parse_from_file-Returns (first_word rest) (ends (first_word rest)))

  -- `CmdFibAdd::parse` returns or raises on every command line within 65536 rounds of each loop, if in
  -- every file that can be read some 16-bit number has no `FACES.FaceId` and some has no `FIB.Name`.
  pub fib_add_parse-Returns :
      ⦃ini : IniParser⦄ (argv : List Bytes)
      → ((path : Bytes) (tree : Tree) → ini.read_ini path ≡ some tree → HasEnds tree)
      → Returns (fib_add_parse router_port (2 ^ 16) argv)
  unfolding fib_add_parse
  fib_add_parse-Returns argv ends =
      if-Returns (length argv == 4) _ _ (parse_option-Returns (drop 2 argv) ends) (
        if-Returns (length argv == 10) _ _ (parse_from_arg router_port argv, refl)
          (err bad_argument, refl))
