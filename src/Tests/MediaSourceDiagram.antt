-- ===== src/Tests/MediaSourceDiagram.antt =====
-- Runs of the theorems of MediaSource/Diagram.antt.
use ps3eye_direct_show.MediaSource.Source.{Source}
