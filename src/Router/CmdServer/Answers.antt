-- ===== src/Router/CmdServer/Answers.antt =====
-- Which commands are answered, in src/router/cmd-server.cpp.
use f_copss.Router.FaceManager.{Face}
use f_copss.Router.FaceManager
use f_copss.Router.CmdServer.{
  try, returns, cast, at, shut_face, reply_ok, reply_err, face_del, raises, lookup, receive, Action,
  face_del_id, codes, Done, Router, CmdArg, catch_error,
}
use f_copss.Prelude.{
  ◌∙◌, ok, err, ap, Result, inr, inl, refl, bad_argument, bad_cast, some, ◌⊎◌, [], ◌∷◌, ◌++◌,
  Option-cases, List, none, ◌^◌, ◌≡◌, ℕ, Bytes,
}
use f_copss.Router.CmdServer.Platform.{Host}

module _ ⦃host : Host⦄ where
  -- What `faceDel` does to a face with this id before it answers.
  abbrev pub shuts : ℕ → Router → List Action
  shuts id router = elim (FaceManager.find id router.faces) [
    | none ↦ []
    | some face ↦ shut_face face.id ∷ []
  ]

  -- The argument is missing, and the answer is an error; or it is a number, and a face with that id is
  -- shut down before the answer that all is well; or it is no number of the type, and the exception
  -- leaves the handler without an answer. The tables are as before, and when nothing is raised the
  -- next command is asked for.
  abbrev pub IsAnswered : Bytes → ℕ → CmdArg → Router → Done → Type 0
  IsAnswered key limit arg router done =
      ((lookup key arg ≡ none)
        × (catch_error done ≡ returns router (reply_err bad_argument ∷ receive ∷ [])))
      ⊎ ((text : Bytes) × (id : ℕ) × (lookup key arg ≡ some text)
          × (host.lexical_cast limit text ≡ some id)
          × (catch_error done ≡ returns router (shuts id router ++ (reply_ok ∷ receive ∷ []))))
      ⊎ ((text : Bytes) × (lookup key arg ≡ some text)
          × (host.lexical_cast limit text ≡ none)
          × (catch_error done ≡ raises router bad_cast))

  at-none : (key : Bytes) (arg : CmdArg) → lookup key arg ≡ none → at key arg ≡ err bad_argument
  at-none key arg e = rw (e, at) refl

  at-some :
      (key : Bytes) (arg : CmdArg) (text : Bytes)
      → lookup key arg ≡ some text
      → at key arg ≡ ok text
  at-some key arg text e = rw (e, at) refl

  cast-none :
      (limit : ℕ) (s : Bytes) → host.lexical_cast limit s ≡ none → cast limit s ≡ err bad_cast
  cast-none limit s e = rw (e, cast) refl

  cast-some :
      (limit : ℕ) (s : Bytes) (n : ℕ) → host.lexical_cast limit s ≡ some n → cast limit s ≡ ok n
  cast-some limit s n e = rw (e, cast) refl

  -- What follows the cast, and what follows the argument.
  abbrev on_id : Router → Result ℕ → Done
  on_id router r = try router r (λ id. face_del_id id router)

  abbrev on_text : Router → Result Bytes → Done
  on_text router r = try router r (λ face. on_id router (cast (2 ^ 64) face))

  face_del-missing :
      (arg : CmdArg) (router : Router)
      → lookup (codes "FACE") arg ≡ none
      → face_del arg router ≡ raises router bad_argument
  unfolding face_del
  face_del-missing arg router e = ap (on_text router) (at-none (codes "FACE") arg e)

  face_del-uncast :
      (arg : CmdArg) (router : Router) (text : Bytes)
      → lookup (codes "FACE") arg ≡ some text
      → host.lexical_cast (2 ^ 64) text ≡ none
      → face_del arg router ≡ raises router bad_cast
  unfolding face_del
  face_del-uncast arg router text e c =
      ap (on_text router) (at-some (codes "FACE") arg text e)
      ∙ ap (on_id router) (cast-none (2 ^ 64) text c)

  face_del-cast :
      (arg : CmdArg) (router : Router) (text : Bytes) (id : ℕ)
      → lookup (codes "FACE") arg ≡ some text
      → host.lexical_cast (2 ^ 64) text ≡ some id
      → face_del arg router ≡ face_del_id id router
  unfolding face_del
  face_del-cast arg router text id e c =
      ap (on_text router) (at-some (codes "FACE") arg text e)
      ∙ ap (on_id router) (cast-some (2 ^ 64) text id c)

  missing-caught :
      (router : Router)
      → catch_error (raises router bad_argument)
        ≡ returns router (reply_err bad_argument ∷ receive ∷ [])
  unfolding catch_error
  missing-caught router = refl

  face_del_id-caught :
      (id : ℕ) (router : Router)
      → catch_error (face_del_id id router)
        ≡ returns router (shuts id router ++ (reply_ok ∷ receive ∷ []))
  unfolding catch_error
  face_del_id-caught id router = elim (Option-cases (FaceManager.find id router.faces)) [
    | inl e ↦ rw (e, face_del_id, shuts) refl
    | inr (face, e) ↦ rw (e, face_del_id, shuts) refl
  ]

  escaped : (router : Router) → catch_error (raises router bad_cast) ≡ raises router bad_cast
  unfolding catch_error
  escaped router = refl

  -- `faceDel` without an argument is answered with an error. With a number it shuts down the face of
  -- that id, if there is one, and then answers that all is well. With a text that is no 64-bit number,
  -- `bad_lexical_cast`, which is no `runtime_error`, leaves the handler and no answer is sent. The
  -- tables are as before.
  pub face_del-Answers :
      (arg : CmdArg) (router : Router)
      → IsAnswered (codes "FACE") (2 ^ 64) arg router (face_del arg router)
  face_del-Answers arg router = elim (Option-cases (lookup (codes "FACE") arg)) [
    | inl e ↦ inl (e, ap catch_error (face_del-missing arg router e) ∙ missing-caught router)
    | inr (text, e) ↦ elim (Option-cases (host.lexical_cast (2 ^ 64) text)) [
      | inl c ↦
          inr (
            inr (text, e, c, ap catch_error (face_del-uncast arg router text e c) ∙ escaped router))
      | inr (id, c) ↦ inr (
          inl (
            text,
            id,
            e,
            c,
            ap catch_error (face_del-cast arg router text id e c) ∙ face_del_id-caught id router,
          ))
    ]
  ]
