-- ===== src/Ipc/MediaFeed/Polls.antt =====
-- A poll of src/ipc/mediafeed.cpp that comes before the headers of a new request.
use batorrent.Base.{some}
use batorrent.Ipc.MediaFeed.{Feed, Pending, stream_from}

-- The feed after it has asked again from the place of a request.
abbrev pub asked_again : Pending → Feed → Feed
asked_again p s = stream_from p.offset (record s { retried_at = some p.offset })
