-- ===== src/Ws/Handshake.antt =====
-- What holds once the handshake is done.
use copysync.Prelude.{
  ◌≡◌, refl, sym, ap, ◌∙◌, inl, inr, Bool, true, false, Option, none, some, List, [], ◌∷◌, ◌++◌,
  Text, codes, text_eq, text_eq_iff, Bool-cases, if◌then◌else◌,
}
use copysync.Protocol.{HelloOk}
use copysync.Protocol.Json.{Json}
use copysync.Ws.{
  Serde, envelope, WsMessage, binary, Item, message, failed, into_data, Socket, up, hello,
  to_ws_url, Refusal, decode, encode, send, welcome, greeted, first_of, await_hello, connect,
  accepted, refused, down, shake, not_written,
}

not-up : {why : Refusal} {u : Socket} {h : HelloOk} → down why ≡ up u h → ⊥
not-up e = cc

accepted-up :
    (o : Option HelloOk) (s u : Socket) (h : HelloOk)
    → accepted o s ≡ up u h
    → (o ≡ some h) × (s ≡ u)
accepted-up none s u h is = cc
accepted-up (some g) s u h is = (cc, cc)

welcomed-up :
    (ok err : Bool) (o : Option HelloOk) (bad other : Refusal) (s u : Socket) (h : HelloOk)
    → (if ok then accepted o s else if err then down bad else down other) ≡ up u h
    → (ok ≡ true) × (o ≡ some h) × (s ≡ u)
welcomed-up true err o bad other s u h is =
    let (fine, same) = accepted-up o s u h is in (refl, fine, same)
welcomed-up false true o bad other s u h is = cc
welcomed-up false false o bad other s u h is = cc

module _ (c : Serde) where
  -- The first message of the server, before whatever is left, says that the hello is accepted.
  abbrev pub Welcomed : List Item → HelloOk → List Item → Type 0
  Welcomed before h later =
      (m : WsMessage) × (d : Json) × (before ≡ message m ∷ later)
      × (decode c (into_data m) ≡ some (codes "hello_ok", d))
      × (c.hello_ok d ≡ some h)

  welcome-up :
      (t : Text) (d : Json) (s u : Socket) (h : HelloOk)
      → welcome c t d s ≡ up u h
      → (t ≡ codes "hello_ok") × (c.hello_ok d ≡ some h) × (s ≡ u)
  unfolding welcome
  welcome-up t d s u h is =
      let (ok, fine, same) =
        welcomed-up (text_eq t (codes "hello_ok")) (text_eq t (codes "hello_err")) (c.hello_ok d)
          (refused (c.hello_err d)) _ s u h is in
      ((text_eq_iff t (codes "hello_ok")).0 ok, fine, same)

  greeted-up :
      (o : Option (Text × Json)) (s u : Socket) (h : HelloOk)
      → greeted c o s ≡ up u h
      → (d : Json) × (o ≡ some (codes "hello_ok", d)) × (c.hello_ok d ≡ some h) × (s ≡ u)
  greeted-up none s u h is = cc
  greeted-up (some (t, d)) s u h is =
      let (tag, fine, same) = welcome-up t d s u h is in (d, ap (λ k. some (k, d)) tag, fine, same)

  await_hello-up :
      (items : List Item) (s u : Socket) (h : HelloOk)
      → first_of c items s ≡ up u h
      → Welcomed items h u.incoming × (u.outgoing ≡ s.outgoing)
  await_hello-up [] s u h is = cc
  await_hello-up (failed why ∷ rest) s u h is = cc
  await_hello-up (message m ∷ rest) s u h is =
      let (d, tag, fine, same) = greeted-up _ _ u h is in
      ((m, d, ap (λ k. message m ∷ k.incoming) same, tag, fine), sym (ap (λ k. k.outgoing) same))

  shake-up :
      (hi : Json) (o : Option Socket) (u : Socket) (h : HelloOk)
      → shake c hi o ≡ up u h
      → (s : Socket) × (o ≡ some s)
        × (u.outgoing ≡ s.outgoing ++ binary (c.to_vec (envelope (codes "hello") hi)) ∷ [])
        × Welcomed s.incoming h u.incoming
  unfolding send encode await_hello
  shake-up hi none u h is = cc
  shake-up hi (some s) u h is =
      let hello = binary (c.to_vec (envelope (codes "hello") hi)) in
      let told = record s { outgoing = s.outgoing ++ hello ∷ [] } in
      let next = λ (r : Bool × Socket). if r.0 then await_hello c r.1 else down not_written in
      let tried = λ (b : Bool). next (if b then (true, told) else (false, s)) in
      elim (Bool-cases s.writable) [
        | inl fine ↦
            let (welcomed, out) = await_hello-up s.incoming told u h (sym (ap tried fine) ∙ is) in
            (s, refl, out, welcomed)
        | inr stuck ↦ absurd (not-up (sym (ap tried stuck) ∙ is))
      ]

  -- A connection is only handed out by a dialled socket over which nothing but the hello has been
  -- written, and whose first message was a `hello_ok` with these parameters; what came behind it is
  -- still to be received.
  pub connect-up :
      (dial : Text → Option Socket) (base device_id device_name token : Text) (u : Socket)
      (h : HelloOk)
      → connect c dial base device_id device_name token ≡ up u h
      → (s : Socket) × (dial (to_ws_url base) ≡ some s)
        × (u.outgoing
            ≡ s.outgoing
              ++ binary (c.to_vec (envelope (codes "hello") (hello device_id device_name token)))
                ∷ [])
        × Welcomed s.incoming h u.incoming
  unfolding connect
  connect-up dial base device_id device_name token u h is =
      shake-up _ (dial (to_ws_url base)) u h is
