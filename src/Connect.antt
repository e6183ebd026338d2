-- ===== src/Connect.antt =====
-- transport/connect: the Connect transport. `connectrpc.com/connect` is not part of the repository;
-- of it the model has the names of the codes, the pair of a code and a message, and the methods of its
-- streams as an interface.
pub mod Errors
pub mod Handlers
