-- ===== src/Buffer/Wire.antt =====
-- `operator<<` and `operator>>` of common/buffer.h, one after the other.
use websocket_test.Base.{
  ℕ, ◌+◌, ◌≤◌, ◌≡◌, refl, sym, ap, ap₂, ◌∙◌, arith, List, [], ◌∷◌, ◌++◌, map, length, append_assoc,
  append-nil, take, drop, take-append, drop-append, All, length-append,
}
use websocket_test.Buffer.{CvBuffer, max_size, append, put_value, take_value}
use websocket_test.Buffer.Order.{
  Width, w8, w16, w32, w64, size_of, host_bytes, from_host, to_network, Fits, big_endian,
  length-host_bytes, from_host-host_bytes, host_bytes-to_network, to_network-to_network,
  to_network-Fits,
}
use websocket_test.Buffer.Bounds.{IsValid}
use websocket_test.Buffer.Fifo.{unread, length-unread, unread-append, get_lem}

abbrev pub wire : Width → ℕ → List ℕ
wire w v = big_endian (size_of w) v

pub length-wire : (w : Width) (v : ℕ) → length (wire w v) ≡ size_of w
length-wire w8 v = refl
length-wire w16 v = refl
length-wire w32 v = refl
length-wire w64 v = refl

size_bounds : (w : Width) → (1 ≤ size_of w) × (size_of w ≤ 8)
size_bounds w8 = omega arith
size_bounds w16 = omega arith
size_bounds w32 = omega arith
size_bounds w64 = omega arith

-- What `<<` appends, where there is room, is the value's big-endian form.
pub put_value_lem :
    (w : Width) (b : CvBuffer) (v : ℕ)
    → IsValid b
    → Fits w v
    → b.offset + size_of w ≤ max_size
    → (unread (put_value w b v) ≡ unread b ++ wire w v)
      × ((put_value w b v).offset ≡ b.offset + size_of w)
      × IsValid (put_value w b v)
unfolding put_value append
put_value_lem w b v valid fits room =
    let bytes = host_bytes (size_of w) (to_network w v) in
    rw (← host_bytes-to_network w v fits) (
      ground (
        arith,
        size_bounds w,
        length-host_bytes (size_of w) (to_network w v),
        unread-append b bytes valid,
      ))

-- The bytes that are read stand for the value.
pub value_of_wire : (w : Width) (v : ℕ) → Fits w v → to_network w (from_host (wire w v)) ≡ v
value_of_wire w v fits =
    rw
      (
        ← host_bytes-to_network w v fits,
        from_host-host_bytes (size_of w) (to_network w v) (to_network-Fits w v fits),
      )
      (to_network-to_network w v fits)

-- `>>` takes the big-endian form of a value off the front, and gives the value.
pub take_value_lem :
    (w : Width) (b : CvBuffer) (v : ℕ) (rest : List ℕ)
    → IsValid b
    → Fits w v
    → unread b ≡ wire w v ++ rest
    → ((take_value w b).1 ≡ v) × (unread (take_value w b).0 ≡ rest) × IsValid (take_value w b).0
unfolding take_value
take_value_lem w b v rest valid fits e =
    let n = size_of w in
    let enough : length (unread b) ≡ n + length rest =
      ap length e ∙ length-append (wire w v) rest ∙ ap (λ k. k + length rest) (length-wire w v) in
    let (read, remain) = get_lem b n valid (omega (arith, size_bounds w)) (omega arith) in
    let front : take n (unread b) ≡ wire w v =
      rw e (take-append n (wire w v) rest (sym (length-wire w v))) in
    let back : drop n (unread b) ≡ rest =
      rw e (drop-append n (wire w v) rest (sym (length-wire w v))) in
    rw (read, front) (value_of_wire w v fits, remain ∙ back, omega (arith, length-unread b))

abbrev pub Field : Type 0
Field = Width × ℕ

-- `buf << v1 << v2 << …`, and `buf >> v1 >> v2 >> …` with the values that come out.
pub put_values : CvBuffer → List Field → CvBuffer
put_values b [] = b
put_values b ((w, v) ∷ fields) = put_values (put_value w b v) fields

pub take_values : List Width → CvBuffer → List ℕ × CvBuffer
take_values [] b = ([], b)
take_values (w ∷ ws) b =
    let (b', v) = take_value w b in let (vs, b'') = take_values ws b' in (v ∷ vs, b'')

abbrev pub wires : List Field → List ℕ
wires [] = []
wires ((w, v) ∷ fields) = wire w v ++ wires fields

abbrev pub total_size : List Field → ℕ
total_size [] = 0
total_size ((w, v) ∷ fields) = size_of w + total_size fields

abbrev pub widths : List Field → List Width
widths = map λ f. f.0

abbrev pub values : List Field → List ℕ
values = map λ f. f.1

abbrev pub AllFit : List Field → Type 0
AllFit = All λ f. Fits f.0 f.1

pub put_values_lem :
    (fields : List Field) (b : CvBuffer)
    → IsValid b
    → AllFit fields
    → b.offset + total_size fields ≤ max_size
    → (unread (put_values b fields) ≡ unread b ++ wires fields) × IsValid (put_values b fields)
unfolding put_values
put_values_lem [] b valid fit room = (sym (append-nil (unread b)), valid)
put_values_lem ((w, v) ∷ fields) b valid fit room =
    let (more, size, valid') = put_value_lem w b v valid fit.0 (omega arith) in
    let (rest, valid'') = put_values_lem fields (put_value w b v) valid' fit.1 (omega arith) in
    (rest ∙ rw more (append_assoc (unread b) (wire w v) (wires fields)), valid'')

take_values_lem :
    (fields : List Field) (b : CvBuffer) (rest : List ℕ)
    → IsValid b
    → AllFit fields
    → unread b ≡ wires fields ++ rest
    → ((take_values (widths fields) b).0 ≡ values fields)
      × (unread (take_values (widths fields) b).1 ≡ rest)
unfolding take_values
take_values_lem [] b rest valid fit e = (refl, e)
take_values_lem ((w, v) ∷ fields) b rest valid fit e =
    let (v', b', valid') =
      take_value_lem w b v (wires fields ++ rest) valid fit.0
        (e ∙ append_assoc (wire w v) (wires fields) rest) in
    let (vs, r) = take_values_lem fields (take_value w b).0 rest valid' fit.1 b' in
    (ap₂ ◌∷◌ v' vs, r)

-- Values that fit their widths, streamed by << into a valid buffer with nothing unread and with
-- room for them, come back by >> in their order, and leave nothing unread.
pub take_values-put_values :
    (fields : List Field) (b : CvBuffer)
    → IsValid b
    → unread b ≡ []
    → AllFit fields
    → b.offset + total_size fields ≤ max_size
    → ((take_values (widths fields) (put_values b fields)).0 ≡ values fields)
      × (unread (take_values (widths fields) (put_values b fields)).1 ≡ [])
take_values-put_values fields b valid none_left fit room =
    let (e, valid') = put_values_lem fields b valid fit room in
    take_values_lem fields (put_values b fields) [] valid' fit
      (e ∙ ap (λ xs. xs ++ wires fields) none_left ∙ sym (append-nil (wires fields)))
