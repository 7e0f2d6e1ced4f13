-- ===== src/Call/Laws/Told.antt =====
-- The effects of a call that outlive it: the signals sent to a peer and the timeline rows written.
use nuco_messenger.Call.State.{Effect, send_signal, write_row}
use nuco_messenger.Prelude.{List, [], ◌∷◌}

-- Newest first, like the trace.
unfoldable pub told : List Effect → List Effect
told [] = []
told (send_signal handle signal ∷ es) = send_signal handle signal ∷ told es
told (write_row row ∷ es) = write_row row ∷ told es
told (_ ∷ es) = told es
