-- ===== src/Client/Operations/Composed.antt =====
-- What the body of `set_compact` promises when it returns.
use hahapent.Client.Io.{Client, Io}
