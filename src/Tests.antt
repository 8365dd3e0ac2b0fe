-- ===== src/Tests.antt =====
-- Runs of the model at concrete inputs, and the theorems at inputs that meet their hypotheses.
mod Toy
mod Indexing
mod Annotating
mod Clustering
mod Settings
mod Limits
mod Lists
mod Replies
mod Packets
mod Digests
mod Closing
mod Connections
mod Entries
mod Serving
mod Grading
