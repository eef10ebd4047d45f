-- ===== src/Communication/Stream/Wire.antt =====
-- Frames as communication/osa_communication.c puts them on the wire: the head, then its bytes.
use osa_base.Base.{ℕ, Option, none, some, List, [], ◌∷◌, ◌++◌, take}
use osa_base.Communication.Head.{FrameHead}
use osa_base.Communication.Stream.{BufInfo}

-- the bytes behind `data`
abbrev pub bytes_in : Option (List ℕ) → List ℕ
bytes_in none = []
bytes_in (some bytes) = bytes

module _ {R : Type 0} where
  -- the bytes of a frame
  abbrev pub payload : BufInfo R → List ℕ
  payload info = take info.head.n_frame_length (bytes_in info.frame_data)

  -- the heads and the bytes of some frames, with the numbers of their buffers
  abbrev pub frames_of : List (ℕ × BufInfo R) → List (FrameHead R × List ℕ)
  frames_of [] = []
  frames_of ((k, info) ∷ qs) = (info.head, payload info) ∷ frames_of qs

  module _ (head_bytes : FrameHead R → List ℕ) where
    abbrev pub frame_wire : BufInfo R → List ℕ
    frame_wire info = head_bytes info.head ++ payload info

    abbrev pub all_wires : List (ℕ × BufInfo R) → List ℕ
    all_wires [] = []
    all_wires ((k, info) ∷ qs) = frame_wire info ++ all_wires qs
